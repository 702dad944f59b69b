-- ===== src/Pins.antt =====
-- Notes that a user moved: the pins of backend/repositories/decision.py, `DecisionService.move` and
-- `unpin` of backend/services/decisions.py as far as they write pins, and `repinned` of
-- backend/services/jobs.py, which files a summary's items by project. What an item says is one text.
pub mod Grouping
use knowledgebase_storage.Common.{
  ℕ, zero, suc, ◌+◌, ◌-◌, ◌*◌, ◌/◌, ◌%◌, ◌^◌, ◌≤◌, ◌<◌, min, max, String, ◌≡◌, refl, sym, ap, ◌∙◌,
  subst, ◌≢◌, ◌↔◌, ◌⊎◌, inl, inr, Bool, true, false, not, ◌&&◌, ◌||◌, Option, none, some, List, [],
  ◌∷◌, ◌++◌, map, reverse, Memᴰ, arith, ◌==◌, eq_iff, eq_refl, ltb, leb, eqb, if◌then◌else◌,
  Bool-cases, Option-cases, is_none, is_some, holds_text, or_text, take_text, ◌<>◌, length,
  length-append, take, All, keep, contains,
}
use knowledgebase_storage.Common.Table.{first, put, update_where, delete_where}
use knowledgebase_storage.Models.{SessionKey, key_eq}

pub record NotePin : Type 0 where
  pub id : ℕ
  pub key : SessionKey
  pub project : String
  pub first_request : ℕ
  pub last_request : ℕ

pub record SessionItem : Type 0 where
  pub number : ℕ
  pub content : String

pub record SessionNote : Type 0 where
  pub header : String
  pub items : List SessionItem
  pub project : String

-- `self.last_request or self.first_request`
abbrev pub last_of : NotePin → ℕ
last_of pin = if eqb pin.last_request 0 then pin.first_request else pin.last_request

unfoldable pub holds : ℕ → NotePin → Bool
holds number pin =
    if eqb pin.first_request 0
    then true
    else (leb pin.first_request number && leb number (last_of pin))

unfoldable pub find_pin : SessionKey → ℕ → List NotePin → Option NotePin
unfolding first
find_pin key first_request pins =
    first (λ p. key_eq p.key key && eqb p.first_request first_request) pins

unfoldable pub pins_around : SessionKey → List NotePin → List NotePin
unfolding keep
pins_around key pins = keep (λ p. key_eq p.key key) pins

unfoldable pub carry : String → String → List NotePin → List NotePin
unfolding update_where
carry source moved_to pins =
    update_where (λ p. p.project == source) (λ p. record p { project = moved_to }) pins

unfoldable pub pin_or_made : Option NotePin → NotePin → NotePin
pin_or_made none made = made
pin_or_made (some held) made = held

-- The pin that `move` writes.
unfoldable pub pinned :
    (id : ℕ)
    → SessionKey
    → (project : String) (first_request last_request : ℕ) → List NotePin
    → List NotePin
unfolding pin_or_made find_pin put
pinned id key project first_request last_request pins =
    let made : NotePin = record {
      id = id;
      key = key;
      project = project;
      first_request = first_request;
      last_request = 0;
    } in
    put (λ a b. eqb a.id b.id)
      (record (pin_or_made (find_pin key first_request pins) made) {
        project = project;
        last_request = last_request;
      })
      pins

unfoldable pub unpin : (pin_id : ℕ) → List NotePin → List NotePin
unfolding delete_where
unpin pin_id pins = delete_where (λ p. eqb p.id pin_id) pins

abbrev pub project_or : Option NotePin → String → String
project_or none owner = owner
project_or (some pin) owner = pin.project

-- `next((pin.project for pin in pins if pin.holds(item.number)), owner)`
unfoldable pub place : List NotePin → String → SessionItem → String
unfolding first holds
place pins owner item = project_or (first (holds item.number) pins) owner

-- `note.project or here`
abbrev pub owner_of_note : String → SessionNote → String
owner_of_note here note = if note.project == "" then here else note.project

-- `grouped.setdefault(project, []).append(item)` and `headers.setdefault(project, note.header)`
unfoldable pub add_item :
    (project header : String) → SessionItem → List SessionNote → List SessionNote
add_item project header item [] =
    record { header = header; items = item ∷ []; project = project } ∷ []
add_item project header item (g ∷ gs) =
    let rest = add_item project header item gs in
    if g.project == project then record g { items = g.items ++ item ∷ [] } ∷ gs else g ∷ rest

unfoldable pub repin_items :
    List NotePin → (owner header : String) → List SessionItem → List SessionNote → List SessionNote
unfolding add_item place
repin_items pins owner header [] groups = groups
repin_items pins owner header (item ∷ items) groups =
    repin_items pins owner header items (add_item (place pins owner item) header item groups)

unfoldable pub repin_notes :
    List NotePin → (here : String) → List SessionNote → List SessionNote → List SessionNote
unfolding repin_items
repin_notes pins here [] groups = groups
repin_notes pins here (note ∷ notes) groups =
    repin_notes pins here notes
      (repin_items pins (owner_of_note here note) note.header note.items groups)

unfoldable pub repinned : List SessionNote → List NotePin → (here : String) → List SessionNote
unfolding repin_notes
repinned notes pins here = repin_notes pins here notes []
