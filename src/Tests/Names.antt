-- ===== src/Tests/Names.antt =====
-- Names with spaces and reserved words, and aliases of `demo`, which is merged into `site`.
use Prim.Native.Char.{Char}
use Prim.Native.String as Text
use knowledgebase_storage.Common.{◌==◌, ◌≡◌, refl, true, false, List, [], ◌∷◌, arith, ◌<>◌}
use knowledgebase_storage.Names.{
  char_eq, slugify, project_of, projects_root, named_project, unfiled,
}
use knowledgebase_storage.Names.Laws.{project_of-slugify}
use knowledgebase_storage.Aliases.{ProjectAlias, redirect, settle}
use knowledgebase_storage.Aliases.Chains.{rest, next, merged, settle-redirect}
use knowledgebase_storage.Aliases.Merged.{settle-merged}
use knowledgebase_storage.Tests.Data.{ascii}

no_slash_word : (c : Char) → char_eq c "/" ≡ true → ascii.is_word c ≡ false
no_slash_word c h = ground (arith, h)

log_slug : slugify ascii " log " ≡ "log-project"
unfolding slugify
log_slug = refl

spaced_slug : slugify ascii " my  new(app) " ≡ "my-new-app"
unfolding slugify
spaced_slug = refl

parent_slug : slugify ascii ".." ≡ ".."
unfolding slugify
parent_slug = refl

file_is_unfiled : named_project ascii "notes.md" ≡ unfiled
unfolding named_project
file_is_unfiled = refl

project_of-slugify_example :
    project_of
      (projects_root <> (Text.◌∷◌ "/" (slugify ascii " log " <> (Text.◌∷◌ "/" "log/2026.md"))))
    ≡ slugify ascii " log "
project_of-slugify_example = project_of-slugify ascii no_slash_word (λ s h. h) " log " "log/2026.md"

abbrev old_alias : List ProjectAlias
old_alias = record { source = "draft"; slug = "demo" } ∷ []

settle-redirect_example : settle (redirect old_alias "demo" "site") "draft" ≡ "site"
unfolding settle
settle-redirect_example = settle-redirect "demo" "site" refl old_alias "draft" refl refl refl

settle-merged_example :
    let aliases = redirect (redirect [] "draft" "demo") "demo" "site" in
    (settle aliases "draft" == "draft") ≡ false
settle-merged_example =
    settle-merged rest "draft" "demo" "draft" refl refl (next (merged "demo" "site" refl refl) rest)
      (refl, tt)
