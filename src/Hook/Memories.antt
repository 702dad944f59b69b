-- ===== src/Hook/Memories.antt =====
-- The files that an agent remembers, of hooks/kbstore_hook.py: the device keeps the digest of each file as it
-- was when the server had the same, takes over what the server has and sends what was edited here. `plain`
-- is `Path(name).name == name`. The agent's directory is the list of its `.md` files by their names; the server
-- lists such names only.
pub mod Pull
pub mod Drops
pub mod Merge
pub mod Push
use knowledgebase_storage.Common.{
  String, Bool, true, false, not, ◌&&◌, ◌||◌, Option, none, some, is_none, is_some, List, [], ◌∷◌,
  ◌==◌, holds_text, is_empty, if◌then◌else◌, map, keep,
}
use knowledgebase_storage.Common.Dict.{lookup, insert, remove}

-- What `pull_memories` goes through: the files not yet met, the directory, and the digests it keeps.
pub record Pulled : Type 0 where
  pub unmet : List (String × String)
  pub files : List (String × String)
  pub synced : List (String × String)

module _ (hash : String → String) where
  -- `current is not None and digest(current) not in {synced.get(name), digest(content)}`
  unfoldable pub edited_here : Option String → Option String → String → Bool
  edited_here none base content = false
  edited_here (some current) base content =
      not (holds_text base (hash current)) && not (hash content == hash current)

  module _ (plain : String → Bool) where
    unfoldable pub pull_one : (name content : String) → Pulled → Pulled
    unfolding edited_here lookup insert remove
    pull_one name content s =
        let current = lookup name s.unmet in
        let deleted_here = is_none current && is_some (lookup name s.synced) in
        let unmet = remove name s.unmet in
        if edited_here current (lookup name s.synced) content || deleted_here || not (plain name)
        then record { unmet = unmet; files = s.files; synced = s.synced }
        else record {
          unmet = unmet;
          files = if holds_text current content then s.files else insert name content s.files;
          synced = insert name (hash content) s.synced;
        }

    unfoldable pub pull_each : List (String × String) → Pulled → Pulled
    unfolding pull_one
    pull_each [] s = s
    pull_each ((name, content) ∷ rest) s = pull_each rest (pull_one name content s)

  -- the second loop: a file that the server no longer has and nobody edited here
  unfoldable pub drop_one : (name current : String) → Pulled → Pulled
  unfolding lookup remove
  drop_one name current s =
      if holds_text (lookup name s.synced) (hash current)
      then record s { files = remove name s.files; synced = remove name s.synced }
      else s

  unfoldable pub drop_each : List (String × String) → Pulled → Pulled
  unfolding drop_one
  drop_each [] s = s
  drop_each ((name, current) ∷ rest) s = drop_each rest (drop_one name current s)

  -- The directory and the digests afterwards; `remote` is none where the server gave no list.
  unfoldable pub pull_memories :
      (plain : String → Bool) (remote : Option (List (String × String)))
      (files synced : List (String × String))
      → List (String × String) × List (String × String)
  unfolding pull_each drop_each
  pull_memories plain none files synced = (files, synced)
  pull_memories plain (some []) files synced = (files, synced)
  pull_memories plain (some (item ∷ items)) files synced =
      let s =
        pull_each plain (item ∷ items) (record { unmet = files; files = files; synced = synced }) in
      let t = drop_each s.unmet s in (t.files, t.synced)

  unfoldable pub digests_of : List (String × String) → List (String × String)
  digests_of [] = []
  digests_of ((name, text) ∷ rest) = (name, hash text) ∷ digests_of rest

  -- what `push_memories` sends: the files that differ from what was synced, and the names that are gone
  unfoldable pub changed_files : (synced files : List (String × String)) → List (String × String)
  unfolding lookup
  changed_files synced files = keep (λ f. not (holds_text (lookup f.0 synced) (hash f.1))) files

  unfoldable pub deleted_names : (synced digests : List (String × String)) → List (String × String)
  unfolding lookup
  deleted_names synced digests = keep (λ f. is_none (lookup f.0 digests)) synced

  -- The digests afterwards; `accepted` says of a request whether it was answered.
  unfoldable pub push_memories :
      (accepted : List (String × String) → List (String × String) → Bool)
      (files synced : List (String × String))
      → List (String × String)
  unfolding digests_of changed_files deleted_names
  push_memories accepted files synced =
      let edited = changed_files synced files in
      let deleted = deleted_names synced (digests_of files) in
      if (is_empty edited && is_empty deleted) || not (accepted edited deleted)
      then synced
      else digests_of files

-- `NoteService.sync_memories` of backend/services/notes.py on a project's directory: what is written is rendered.
unfoldable pub write_each :
    (render : String → String → String) (files dir : List (String × String))
    → List (String × String)
unfolding insert
write_each render [] dir = dir
write_each render ((name, content) ∷ rest) dir =
    write_each render rest (insert name (render name content) dir)

unfoldable pub delete_each : (names dir : List (String × String)) → List (String × String)
unfolding remove
delete_each [] dir = dir
delete_each ((name, digest) ∷ rest) dir = delete_each rest (remove name dir)

unfoldable pub sync_memories :
    (render : String → String → String) (files deleted dir : List (String × String))
    → List (String × String)
unfolding write_each delete_each
sync_memories render files deleted dir = delete_each deleted (write_each render files dir)
