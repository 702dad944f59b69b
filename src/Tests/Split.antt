-- ===== src/Tests/Split.antt =====
-- A request that names files of `demo`, and a short reply to it.
use knowledgebase_storage.Common.{ℕ, String, ◌≡◌, refl, List, [], ◌∷◌, All}
use knowledgebase_storage.Split.{Prefixes, filed, plan, decided, votes_of}
use knowledgebase_storage.Split.Plans.{IsFiled, filed-plan}
use knowledgebase_storage.Tests.Data.{ascii}

abbrev one_line : String → List String
one_line s = s ∷ []

abbrev prefixes : Prefixes
prefixes = ("demo", "src/demo/") ∷ []

abbrev chosen : ℕ → String → String
chosen n seen = "site"

abbrev named_files : String
named_files = "edit src/demo/a src/demo/b src/demo/c"

three_votes : votes_of one_line named_files prefixes ≡ ("demo", 3) ∷ []
unfolding votes_of
three_votes = refl

by_path : (decided ascii.is_space one_line named_files prefixes "box").project ≡ "demo"
unfolding decided
by_path = refl

as_before : (decided ascii.is_space one_line "thanks" prefixes "box").project ≡ "box"
unfolding decided
as_before = refl

filed-plan_example :
    All
      (IsFiled prefixes ("site" ∷ []) "box" chosen (named_files ∷ "thanks" ∷ []) [] (
        filed chosen
          (named_files ∷ "thanks" ∷ [])
          []
          ("site" ∷ [])
          "s"
          (plan ascii.is_space one_line (named_files ∷ "thanks" ∷ []) prefixes "box")
          "box"))
      (1 ∷ 2 ∷ [])
filed-plan_example =
    filed-plan ascii.is_space one_line chosen named_files ("thanks" ∷ []) [] ("site" ∷ []) prefixes
      "s" "box" refl

files :
    filed chosen
      (named_files ∷ "thanks" ∷ [])
      []
      ("site" ∷ [])
      "s"
      (plan ascii.is_space one_line (named_files ∷ "thanks" ∷ []) prefixes "box")
      "box"
    ≡ (1, "demo") ∷ (2, "demo") ∷ []
unfolding filed plan
files = refl
