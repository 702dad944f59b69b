-- ===== src/Pins/Grouping.antt =====
-- Where the items of a summary go: `repinned` of backend/services/jobs.py.
use mathlib.Core.List
use knowledgebase_storage.Common.{
  ℕ, suc, ◌+◌, String, ◌≡◌, refl, sym, ap, ◌∙◌, subst, inl, inr, Bool, true, false, List, [], ◌∷◌,
  ◌++◌, arith, ◌==◌, eq_iff, if◌then◌else◌, Bool-cases, length, length-append, keep,
}
use knowledgebase_storage.Pins.{
  NotePin, SessionItem, SessionNote, place, owner_of_note, add_item, repin_items, repin_notes,
  repinned,
}

-- the items that are filed under a project
abbrev pub items_of : String → List SessionNote → List SessionItem
items_of project [] = []
items_of project (g ∷ gs) = if g.project == project then g.items else items_of project gs

-- the items of a note, and of all the notes, that belong under a project, in their order
abbrev pub belonging : List NotePin → (project owner : String) → List SessionItem → List SessionItem
belonging pins project owner items = keep (λ i. place pins owner i == project) items

abbrev pub all_belonging :
    List NotePin → (project here : String) → List SessionNote → List SessionItem
all_belonging pins project here [] = []
all_belonging pins project here (note ∷ notes) =
    belonging pins project (owner_of_note here note) note.items
    ++ all_belonging pins project here notes

items_of-add_item :
    (project other header : String) (item : SessionItem) (groups : List SessionNote)
    → items_of project (add_item other header item groups)
      ≡ items_of project groups ++ (if other == project then item ∷ [] else [])
unfolding add_item
items_of-add_item project other header item [] = ground arith
items_of-add_item project other header item (g ∷ gs) =
    let step = items_of-add_item project other header item gs in
    elim (Bool-cases (g.project == other)) [
      | inl e ↦
          let same_name : g.project ≡ other = (eq_iff g.project other).0 e in
          elim (Bool-cases (g.project == project)) [
            | inl f ↦
                let k : (other == project) ≡ true =
                  subst (λ n. (n == project) ≡ true) same_name f in
                rw (e, f, k) refl
            | inr f ↦
                let k : (other == project) ≡ false =
                  subst (λ n. (n == project) ≡ false) same_name f in
                rw (e, f, k) (sym (List.append-nil (items_of project gs)))
          ]
      | inr e ↦ elim (Bool-cases (g.project == project)) [
        | inl f ↦
            let k : (other == project) ≡ false = ground (
              arith,
              e,
              f,
              eq_iff other project,
              eq_iff g.project project,
              eq_iff g.project other,
            ) in
            rw (e, f, k) (sym (List.append-nil g.items))
        | inr f ↦ rw (e, f) step
      ]
    ]

items_of-repin_items :
    (pins : List NotePin) (project owner header : String) (items : List SessionItem)
    (groups : List SessionNote)
    → items_of project (repin_items pins owner header items groups)
      ≡ items_of project groups ++ belonging pins project owner items
unfolding repin_items keep
items_of-repin_items pins project owner header [] groups =
    sym (List.append-nil (items_of project groups))
items_of-repin_items pins project owner header (i ∷ items) groups =
    let other = place pins owner i in
    let rest = belonging pins project owner items in
    items_of-repin_items pins project owner header items (add_item other header i groups)
    ∙ ap (λ (xs : List SessionItem). xs ++ rest) (items_of-add_item project other header i groups)
    ∙ List.append_assoc (items_of project groups) (if other == project then i ∷ [] else []) rest
    ∙ ap (λ (xs : List SessionItem). items_of project groups ++ xs) (one_more (other == project))
  where
    one_more :
        (b : Bool)
        → (if b then i ∷ [] else []) ++ belonging pins project owner items ≡ (
            if b
            then i ∷ belonging pins project owner items
            else belonging pins project owner items)
    one_more true = refl
    one_more false = refl

items_of-repin_notes :
    (pins : List NotePin) (project here : String) (notes groups : List SessionNote)
    → items_of project (repin_notes pins here notes groups)
      ≡ items_of project groups ++ all_belonging pins project here notes
unfolding repin_notes
items_of-repin_notes pins project here [] groups = sym (List.append-nil (items_of project groups))
items_of-repin_notes pins project here (note ∷ notes) groups =
    let owner = owner_of_note here note in
    items_of-repin_notes pins project here notes
      (repin_items pins owner note.header note.items groups)
    ∙ ap (λ (xs : List SessionItem). xs ++ all_belonging pins project here notes)
        (items_of-repin_items pins project owner note.header note.items groups)
    ∙ List.append_assoc (items_of project groups) (belonging pins project owner note.items)
        (all_belonging pins project here notes)

abbrev pub total : List SessionNote → ℕ
total [] = 0
total (g ∷ gs) = length g.items + total gs

total-add_item :
    (other header : String) (item : SessionItem) (groups : List SessionNote)
    → total (add_item other header item groups) ≡ suc (total groups)
unfolding add_item
total-add_item other header item [] = omega arith
total-add_item other header item (g ∷ gs) = elim (Bool-cases (g.project == other)) [
  | inl e ↦ rw e (omega (arith, length-append g.items (item ∷ [])))
  | inr e ↦ rw e (omega (arith, total-add_item other header item gs))
]

total-repin_items :
    (pins : List NotePin) (owner header : String) (items : List SessionItem)
    (groups : List SessionNote)
    → total (repin_items pins owner header items groups) ≡ length items + total groups
unfolding repin_items
total-repin_items pins owner header [] groups = omega arith
total-repin_items pins owner header (i ∷ items) groups =
    let more = add_item (place pins owner i) header i groups in
    omega (
      arith,
      total-repin_items pins owner header items more,
      total-add_item (place pins owner i) header i groups,
    )

total-repin_notes :
    (pins : List NotePin) (here : String) (notes groups : List SessionNote)
    → total (repin_notes pins here notes groups) ≡ total notes + total groups
unfolding repin_notes
total-repin_notes pins here [] groups = omega arith
total-repin_notes pins here (note ∷ notes) groups =
    let more = repin_items pins (owner_of_note here note) note.header note.items groups in
    omega (
      arith,
      total-repin_notes pins here notes more,
      total-repin_items pins (owner_of_note here note) note.header note.items groups,
    )

-- Under each project, `repinned` files exactly the items that belong there, in the order of the notes
-- and of their items: those of a request that a pin of the project holds first, and those of the
-- project's own notes that no pin holds. There are as many items afterwards as before.
pub repinned_lem :
    (notes : List SessionNote) (pins : List NotePin) (here project : String)
    → (items_of project (repinned notes pins here) ≡ all_belonging pins project here notes)
      × (total (repinned notes pins here) ≡ total notes)
unfolding repinned
repinned_lem notes pins here project = (
  items_of-repin_notes pins project here notes [],
  omega (arith, total-repin_notes pins here notes []),
)
