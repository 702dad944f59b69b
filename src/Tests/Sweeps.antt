-- ===== src/Tests/Sweeps.antt =====
-- A sweep with room for one job, and two pairs of projects to judge.

use knowledgebase_storage.Common.{
  keep, ◌+◌, ◌*◌, ◌≤◌, max, ◌≡◌, refl, true, false, inr, String, Memᴰ, [], ◌∷◌,
}
use knowledgebase_storage.Links.{find}
use knowledgebase_storage.Entries.{EntrySource, ProjectEntry}
use knowledgebase_storage.Sweeps.Pairs.{is_nested, resolved_pair, pairs_worth_judging}
use knowledgebase_storage.Sweeps.Pairs.Judged.{pairs_worth_judging-meets}
use knowledgebase_storage.Tests.Data.{ascii}
use knowledgebase_storage.Queue.Background.{count_pending_background}
use knowledgebase_storage.Sweeps.Cycle.{SweepInput, sweep}
use knowledgebase_storage.Sweeps.Room.{sweep_room}

abbrev small : SweepInput
small = record {
  now = 1000;
  fresh = λ stage n. 10 * stage + n;
  background_batch_size = 1;
  background_sweep_seconds = 86400;
  rebuild_batch_size = 0;
  rebuild_max_age_seconds = 86400;
  stored = λ _. true;
  has_file = λ _. true;
  decisions = [];
  providers = [];
  projects = [];
  pairs = ("app", "site") ∷ ("app", "suite") ∷ [];
  notes = [];
}

one_filed : count_pending_background (sweep small []) ≡ 1
unfolding sweep count_pending_background
one_filed = refl

sweep_room_example : count_pending_background (sweep small []) ≤ max 1 (count_pending_background [])
sweep_room_example = sweep_room small []

-- The folder of `demo` lies in that of `site`, and no link joins the two.
abbrev folder : String → EntrySource
folder path = record { path = path; prefix = "" }

abbrev entry : String → String → ProjectEntry
entry slug path = record {
  id = 1;
  slug = slug;
  description = "";
  sources = folder path ∷ [];
  container = false;
}

one_pair :
    pairs_worth_judging ascii [] [] []
      (entry "demo" "/work/demo" ∷ entry "site" "/work" ∷ entry "tool" "/tool" ∷ [])
      []
    ≡ ("demo", "site") ∷ []
unfolding pairs_worth_judging keep
one_pair = refl

pairs_worth_judging-meets_example :
    Memᴰ (resolved_pair ascii [] ("demo", "site")) (
      pairs_worth_judging ascii [] [] [] (entry "demo" "/work/demo" ∷ entry "site" "/work" ∷ []) [])
unfolding is_nested resolved_pair find
pairs_worth_judging-meets_example =
    pairs_worth_judging-meets ascii [] [] [] (entry "demo" "/work/demo" ∷ entry "site" "/work" ∷ [])
      [] (entry "demo" "/work/demo") (entry "site" "/work") (folder "/work/demo") (folder "/work")
      (Memᴰ.head refl) (Memᴰ.tail (Memᴰ.head refl)) (Memᴰ.head refl) (Memᴰ.head refl) refl refl
      (inr refl) refl refl refl refl refl
