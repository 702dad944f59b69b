-- ===== src/Links.antt =====
-- backend/repositories/link.py and backend/services/links.py: how two projects are connected, and the
-- walk that keeps the part_of links free of cycles. `upward`'s sets are lists without repetition, in
-- the order of the links, where Python leaves the order open. The frontier's top is its head.
pub mod Graph
pub mod Frontier
pub mod Walk
pub mod Pairs
pub mod Table
pub mod Service
pub mod Carry
pub mod Hierarchy
pub mod Edits
pub mod Dropped
pub mod Runs
use knowledgebase_storage.Common.{
  ℕ, zero, suc, ◌+◌, ◌-◌, ◌*◌, ◌/◌, ◌%◌, ◌^◌, ◌≤◌, ◌<◌, min, max, String, ◌≡◌, refl, sym, ap, ◌∙◌,
  subst, ◌≢◌, ◌↔◌, ◌⊎◌, inl, inr, Bool, true, false, not, ◌&&◌, ◌||◌, Option, none, some, List, [],
  ◌∷◌, ◌++◌, map, reverse, Memᴰ, arith, ◌==◌, eq_iff, eq_refl, ltb, leb, eqb, if◌then◌else◌,
  Bool-cases, Option-cases, is_none, is_some, holds_text, or_text, take_text, ◌<>◌, length, take,
  All, keep, contains,
}
use knowledgebase_storage.Common.Table.{first, put, delete_where}

pub data LinkKind : Type 0 where
  same part_of related : LinkKind

pub record ProjectLink : Type 0 where
  pub id : ℕ
  pub kind : LinkKind
  pub source : String
  pub target : String
  pub description : String
  pub stated_by_user : String
  pub confirmed : Bool
  pub unrelated : Bool
  pub summarizer : String

abbrev pub is_part_of : LinkKind → Bool
is_part_of part_of = true
is_part_of _ = false

-- The link joins these two projects, in either direction.
abbrev pub joins : String → String → ProjectLink → Bool
joins a b l = (l.source == a && l.target == b) || (l.source == b && l.target == a)

unfoldable pub find : List ProjectLink → String → String → Option ProjectLink
unfolding first
find links source target = first (joins source target) links

abbrev pub touches : String → ProjectLink → Bool
touches project l = l.source == project || l.target == project

unfoldable pub around : List ProjectLink → String → List ProjectLink
unfolding keep
around links project = keep (touches project) links

abbrev pub Edge : Type 0
Edge = String × String

-- A link that counts as an edge: part_of, not judged unrelated, and not of the pair to be replaced.
abbrev pub counts : String → String → ProjectLink → Bool
counts a b l = is_part_of l.kind && (not l.unrelated && not (joins a b l))

-- The edges of the links that pass a test.
unfoldable pub collect : (ProjectLink → Bool) → List ProjectLink → List Edge
collect test [] = []
collect test (l ∷ ls) =
    let rest = collect test ls in if test l then (l.source, l.target) ∷ rest else rest

unfoldable pub upward_edges : String → String → List ProjectLink → List Edge
unfolding collect
upward_edges a b = collect (counts a b)

abbrev pub add : String → List String → List String
add x xs = if contains xs x then xs else x ∷ xs

-- `upward.get(current, ())`
unfoldable pub upward : List Edge → String → List String
upward [] current = []
upward ((x, y) ∷ es) current =
    let rest = upward es current in if x == current then add y rest else rest

-- The loop of `would_cycle` on fuel; `none` means that the fuel ran out.
unfoldable pub walk : ℕ → List Edge → String → List String → List String → Option Bool
walk zero es source seen frontier = none
walk (suc fuel) es source seen [] = some false
walk (suc fuel) es source seen (current ∷ frontier) =
    let skip = walk fuel es source seen frontier in
    let expand = walk fuel es source (current ∷ seen) (upward es current ++ frontier) in
    if current == source then some true else if contains seen current then skip else expand

-- Each edge is pushed once at most, so this many rounds are enough.
abbrev pub fuel_for : List Edge → ℕ
fuel_for es = suc (suc (length es))

abbrev pub is_true : Option Bool → Bool
is_true none = false
is_true (some b) = b

unfoldable pub would_cycle : List ProjectLink → String → String → Bool
unfolding upward_edges walk upward
would_cycle links source target =
    let es = upward_edges source target links in
    is_true (walk (fuel_for es) es source [] (target ∷ []))

unfoldable pub settled : List ProjectLink → LinkKind → String → String → LinkKind
unfolding would_cycle
settled links kind source target =
    if is_part_of kind && would_cycle links source target then related else kind

unfoldable pub forget : List String → List ProjectLink → List ProjectLink
unfolding delete_where
forget slugs links = delete_where (λ l. contains slugs l.source || contains slugs l.target) links

-- `DBRepositoryImpl.save` of a link.
unfoldable pub save_link : ProjectLink → List ProjectLink → List ProjectLink
unfolding put
save_link link links = put (λ a b. eqb a.id b.id) link links
