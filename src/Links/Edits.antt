-- ===== src/Links/Edits.antt =====
-- The edits of backend/services/links.py, one after the other: a user's statement, a note's candidate, a
-- verdict on a pair, a confirmation and a deletion.
use mathlib.Core.Path.{subst₂}
use knowledgebase_storage.Common.{
  ℕ, String, ◌≡◌, refl, sym, ◌∙◌, subst, ◌⊎◌, inl, inr, Bool, true, false, not, ◌&&◌, ◌||◌, Option,
  none, some, List, [], ◌∷◌, Memᴰ, arith, ◌==◌, eq_iff, eqb, if◌then◌else◌, Bool-cases, is_some,
  All,
}
use knowledgebase_storage.Common.Result.{ok, raised, link_would_cycle}
use knowledgebase_storage.Common.Table.{first}
use knowledgebase_storage.Common.Table.Laws.{All-first, first_passes}
use knowledgebase_storage.Links.{
  ProjectLink, LinkKind, related, is_part_of, joins, collect, upward_edges, find, would_cycle,
  settled, save_link,
}
use knowledgebase_storage.Links.Graph.{Up, Up-Includes}
use knowledgebase_storage.Links.Walk.{would_cycle_lem}
use knowledgebase_storage.Links.Hierarchy.{
  IsHierarchy, is_edge, save_link-IsHierarchy, resave_link-IsHierarchy, mem-collect,
  upward_edges-Includes, All-of_Memᴰ,
}
use knowledgebase_storage.Links.Service.{
  ProjectLinkWrite, LinkCandidate, LinkVerdict, VerdictKind, linked, unrelated, is_unrelated, is_b,
  is_confirmed, judged_kind, new_link, existing_or, written_link, write_between, absorb_one,
  judged_link, judged_between, apply_found,
}

abbrev pub IsFresh : ℕ → List ProjectLink → Type 0
IsFresh id links = All (λ m. eqb m.id id ≡ false) links

eqb_same : (n : ℕ) → eqb n n ≡ true
eqb_same n = ground arith

-- a part_of link that `settled` allows closes no cycle
settled_opens :
    (links : List ProjectLink) (kind : LinkKind) (s t : String)
    → is_part_of (settled links kind s t) ≡ true
    → ¬ Up (upward_edges s t links) t s
unfolding settled
settled_opens links kind s t h = elim (Bool-cases (would_cycle links s t)) [
  | inl e ↦ absurd (
      let k : is_part_of (if is_part_of kind && true then related else kind) ≡ true =
        rw (e, settled) at h in
      ground (arith, k))
  | inr e ↦ (would_cycle_lem links s t).2 e
]

-- From links that are a hierarchy and have no row of the new identifier, `write` between two projects
-- either refuses a part_of link whose target leads up to its source, or saves a link of the stated
-- kind, direction and confirmation, and the links are a hierarchy again.
pub write_between-keeps :
    (id : ℕ) (payload : ProjectLinkWrite) (s t : String) (links : List ProjectLink)
    → IsHierarchy links
    → IsFresh id links
    → (write_between id payload s t links ≡ raised link_would_cycle
        × is_part_of payload.kind ≡ true
        × Up (upward_edges s t links) t s)
      ⊎ ((l : ProjectLink) × (ls : List ProjectLink) × (write_between id payload s t links
            ≡ ok (l, ls))
          × (l.kind ≡ payload.kind)
          × (l.source ≡ s)
          × (l.target ≡ t)
          × (l.confirmed ≡ payload.confirmed)
          × IsHierarchy ls)
unfolding write_between written_link new_link existing_or
write_between-keeps id payload s t links h fresh =
    elim (Bool-cases (is_part_of payload.kind && would_cycle links s t)) [
      | inl e ↦ inl (rw e, ground (arith, e), (would_cycle_lem links s t).1 (ground (arith, e)))
      | inr e ↦
          let fallback = new_link id payload.kind s t in
          let x = written_link payload s t (existing_or (find links s t) fallback) in
          inr (
            x,
            save_link x links,
            rw e,
            refl,
            refl,
            refl,
            refl,
            save_link-IsHierarchy s t x links refl refl fallback h fresh (eqb_same x.id)
                (λ k. (would_cycle_lem links s t).2 (ground (arith, e, k))),
          )
    ]

-- a note's candidate
pub absorb_one-keeps :
    (id : ℕ) (summarizer owner other : String) (c : LinkCandidate) (links : List ProjectLink)
    → IsHierarchy links
    → IsFresh id links
    → IsHierarchy (absorb_one id summarizer owner other c links)
unfolding absorb_one new_link existing_or
absorb_one-keeps id summarizer owner other c links h fresh =
    elim (Bool-cases (other == owner || is_some (find links owner other))) [
      | inl e ↦ rw e h
      | inr e ↦
          let saved : ProjectLink =
            record (new_link id (settled links c.relation owner other) owner other) {
              description = c.description;
              summarizer = summarizer;
            } in
          let none_there : find links owner other ≡ none = ground (arith, e) in
          rw e (
            save_link-IsHierarchy owner other saved links refl refl saved h fresh
              (rw none_there (eqb_same id))
              (λ k. settled_opens links c.relation owner other (ground (arith, k))))
    ]

joins_swap : (a b : String) (l : ProjectLink) → joins a b l ≡ joins b a l
joins_swap a b l = ground arith

find_swap : (links : List ProjectLink) (a b : String) → find links a b ≡ find links b a
unfolding find first
find_swap [] a b = refl
find_swap (l ∷ ls) a b = rw (joins_swap a b l, find_swap ls a b) refl

judged_kind_opens :
    (links : List ProjectLink) (v : VerdictKind) (s t : String)
    → is_part_of (judged_kind links v s t) && not (is_unrelated v) ≡ true
    → ¬ Up (upward_edges s t links) t s
unfolding judged_kind
judged_kind_opens links (linked k) s t h = settled_opens links k s t (ground (arith, h))
judged_kind_opens links unrelated s t h = absurd (cc)

judged_saved-IsHierarchy :
    (id : ℕ) (summarizer : String) (v : LinkVerdict) (s t : String) (links : List ProjectLink)
    (o : Option ProjectLink)
    → find links s t ≡ o
    → IsHierarchy links
    → IsFresh id links
    → IsHierarchy (
        save_link
          (judged_link summarizer v s t links (existing_or o (new_link id related s t)))
          links)
unfolding judged_link new_link
judged_saved-IsHierarchy id summarizer v s t links o f h fresh =
    let fallback = new_link id related s t in
    let x = judged_link summarizer v s t links (existing_or o fallback) in
    save_link-IsHierarchy s t x links refl refl fallback h fresh (rw f (eqb_same x.id))
      (judged_kind_opens links v.verdict s t)

-- a verdict on a pair
pub judged_between-keeps :
    (id : ℕ) (summarizer : String) (v : LinkVerdict) (left right : String)
    (links : List ProjectLink)
    → IsHierarchy links
    → IsFresh id links
    → IsHierarchy (judged_between id summarizer v left right links).1
unfolding judged_between
judged_between-keeps id summarizer v left right links h fresh =
    elim (Bool-cases (is_confirmed (find links left right))) [
      | inl e ↦ rw e h
      | inr e ↦ elim (Bool-cases (is_b v.part && not (is_unrelated v.verdict))) [
        | inl b ↦
            rw (e, b)
              (judged_saved-IsHierarchy id summarizer v right left links (find links left right)
                (find_swap links right left) h fresh)
        | inr b ↦
            rw (e, b)
              (judged_saved-IsHierarchy id summarizer v left right links (find links left right)
                refl h fresh)
      ]
    ]

found_edge :
    (links : List ProjectLink) (a b : String) (l : ProjectLink)
    → find links a b ≡ some l
    → is_edge l ≡ true
    → Memᴰ (l.source, l.target) (collect is_edge links)
unfolding find
found_edge links a b l f e =
    All-first (λ m. is_edge m ≡ true → Memᴰ (m.source, m.target) (collect is_edge links))
      (joins a b) links (All-of_Memᴰ links (λ m n. mem-collect is_edge links m n)) f e

-- the link found between two projects is the one found between its own two
found_again :
    (links : List ProjectLink) (a b : String) (l : ProjectLink)
    → find links a b ≡ some l
    → find links l.source l.target ≡ some l
unfolding find
found_again links a b l f = elim (Bool-cases (l.source == a && l.target == b)) [
  | inl e ↦
      subst₂ (λ v w. find links v w ≡ some l) (sym ((eq_iff l.source a).0 (ground (arith, e))))
        (sym ((eq_iff l.target b).0 (ground (arith, e)))) f
  | inr e ↦
      let j : joins a b l ≡ true = first_passes (joins a b) links f in
      subst₂ (λ v w. find links v w ≡ some l) (sym ((eq_iff l.source b).0 (ground (arith, e, j))))
        (sym ((eq_iff l.target a).0 (ground (arith, e, j)))) (find_swap links b a ∙ f)
]

-- a confirmation
pub apply_found-keeps :
    (reverse : Bool) (links : List ProjectLink) (a b : String) (l : ProjectLink)
    (ls : List ProjectLink)
    → IsHierarchy links
    → find links a b ≡ some l
    → apply_found reverse l links ≡ ok ls
    → IsHierarchy ls
unfolding apply_found
apply_found-keeps false links a b l ls h f r =
    let x : ProjectLink = record l { confirmed = true } in
    subst IsHierarchy (ground (arith, r)) (
      resave_link-IsHierarchy l.source l.target x links refl refl l h (found_again links a b l f)
        (eqb_same l.id)
        (λ e p. h.acyclic l.source l.target (found_edge links a b l f e) (
          Up-Includes (upward_edges l.source l.target links) (collect is_edge links)
            (upward_edges-Includes l.source l.target links) p)))
apply_found-keeps true links a b l ls h f r =
    let x : ProjectLink = record l { source = l.target; target = l.source; confirmed = true } in
    elim (Bool-cases (is_part_of l.kind && would_cycle links l.target l.source)) [
      | inl e ↦ absurd (let k : raised link_would_cycle ≡ ok ls = rw (e, apply_found) at r in cc)
      | inr e ↦
          let k : ok (save_link x links) ≡ ok ls = rw (e, apply_found) at r in
          subst IsHierarchy (ground (arith, k)) (
            resave_link-IsHierarchy l.target l.source x links refl refl l h
              (find_swap links l.target l.source ∙ found_again links a b l f) (eqb_same l.id)
              (λ i. (would_cycle_lem links l.target l.source).2 (ground (arith, e, i))))
    ]
