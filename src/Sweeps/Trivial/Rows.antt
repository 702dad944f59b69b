-- ===== src/Sweeps/Trivial/Rows.antt =====
-- One step of `settle_trivial` of backend/services/background.py on the rows of the job table.
use mathlib.Core.List.Memᴰ
use knowledgebase_storage.Common.{
  ℕ, ◌≡◌, refl, ap, ◌⊎◌, inl, inr, Bool, true, false, ◌||◌, none, List, [], ◌∷◌, map, Memᴰ, arith,
  if◌then◌else◌, Bool-cases, All, All-take,
}
use knowledgebase_storage.Common.Table.{put, update_where}
use knowledgebase_storage.Common.Table.Laws.{All-turn, All-members, select_passes}
use knowledgebase_storage.Common.Table.Distinct.{IsDistinct}
use knowledgebase_storage.Models.{Job, is_pending}
use knowledgebase_storage.Queue.{same_row}
use knowledgebase_storage.Queue.Unsummarized.{is_noteless, settle_noteless, pending_sessions}

-- the session of a row is one of these
unfoldable pub among : List Job → Job → Bool
among [] j = false
among (k ∷ ks) j = same_row k j || among ks j

unfoldable pub settled_row : ℕ → Job → Job
unfolding settle_noteless
settled_row now j = record (settle_noteless now j) { updated_at = now }

pub map-congr : (f g : Job → Job) (xs : List Job) → All (λ j. f j ≡ g j) xs → map f xs ≡ map g xs
map-congr f g [] all = refl
map-congr f g (x ∷ xs) all = ground (arith, map-congr f g xs all.1)

pub map_self : (xs : List Job) → map (λ j. j) xs ≡ xs
map_self [] = refl
map_self (x ∷ xs) = ap (λ (ys : List Job). x ∷ ys) (map_self xs)

pub update_where-map :
    (test : Job → Bool) (change g h : Job → Job) (xs : List Job)
    → All (λ j. (if test (g j) then change (g j) else g j) ≡ h j) xs
    → update_where test change (map g xs) ≡ map h xs
unfolding update_where
update_where-map test change g h [] all = refl
update_where-map test change g h (x ∷ xs) all =
    ground (arith, update_where-map test change g h xs all.1)

-- a row that replaces the one of its identity
pub put-map :
    (row job : Job) (g : Job → Job) (xs : List Job)
    → row.id ≡ job.id
    → IsDistinct same_row xs
    → Memᴰ job xs
    → All (λ j. (g j).id ≡ j.id) xs
    → put same_row row (map g xs) ≡ map (λ j. if same_row job j then row else g j) xs
unfolding put
put-map row job g [] e d m ids = absurd (Memᴰ.not-nil m)
put-map row job g (x ∷ xs) e d m ids = elim (Bool-cases (same_row job x)) [
  | inl same ↦
      let rest : All (λ j. g j ≡ (if same_row job j then row else g j)) xs =
        All-turn (λ j. same_row x j ≡ false) _ (λ j apart. ground (arith, same, apart)) xs d.0 in
      ground (arith, same, e, ids.0, map-congr g (λ j. if same_row job j then row else g j) xs rest)
  | inr other ↦
      let there : Memᴰ job xs = elim (Memᴰ.cases_cons m) [
        | inl same ↦ absurd (ground (arith, ap (λ (j : Job). j.id) same, other))
        | inr n ↦ n
      ] in
      ground (arith, other, e, ids.0, put-map row job g xs e d.1 there ids.1)
]

abbrev pub IsScanned : Job → Type 0
IsScanned j = (is_pending j.status ≡ true) × (j.note_path ≡ none) × (j.priority ≡ 0)

pub pending_sessions-IsScanned :
    (now idle limit : ℕ) (jobs : List Job)
    → All (λ j. Memᴰ j jobs × IsScanned j) (pending_sessions now idle limit jobs)
unfolding pending_sessions
pending_sessions-IsScanned now idle limit jobs =
    All-take (λ j. Memᴰ j jobs × IsScanned j) limit _
      (select_passes (λ j. Memᴰ j jobs) _ _ IsScanned jobs (λ j e. ground (arith, e))
        (All-members (λ j. Memᴰ j jobs) jobs (λ j m. m)))

-- a row as some steps of the scan leave it: as it was, or settled
abbrev pub Came : (now : ℕ) → Job → Job → Type 0
Came now j k = (k ≡ record j { updated_at = k.updated_at }) ⊎ (k ≡ settled_row now j)

pub Came-id : (now : ℕ) (j k : Job) → Came now j k → k.id ≡ j.id
unfolding settled_row settle_noteless
Came-id now j k (inl e) = ap (λ (j : Job). j.id) e
Came-id now j k (inr e) = ap (λ (j : Job). j.id) e

abbrev pub noteless_step : (now : ℕ) → Job → Job → Job
noteless_step now job k =
    if is_noteless job job.last_activity_at k
    then record (settle_noteless now k) { updated_at = now }
    else k

-- the update reaches the row that was scanned, whatever an earlier step made of it
pub noteless_step_same :
    (now : ℕ) (j k : Job) → IsScanned j → Came now j k → noteless_step now j k ≡ settled_row now j
unfolding settled_row settle_noteless is_noteless
noteless_step_same now j k scanned (inl e) = rw e (ground (arith, scanned.0, scanned.1, scanned.2))
noteless_step_same now j k scanned (inr e) = rw e (ground arith)

pub noteless_step_other :
    (now : ℕ) (job j k : Job) → same_row job j ≡ false → k.id ≡ j.id → noteless_step now job k ≡ k
unfolding is_noteless
noteless_step_other now job j k other id = ground (arith, other, id)
