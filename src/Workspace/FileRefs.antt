-- ===== src/Workspace/FileRefs.antt =====
-- app.js: the files that a group's lines refer to, `commandLineFileIds`, `commandGroupFileRefs` and
-- `replaceCommandGroupFile`.
use log_agent.Prelude.{
  ℕ, zero, suc, ◌+◌, ◌-◌, Bool, true, not, ◌&&◌, List, [], ◌∷◌, ◌++◌, map, Option, none, some, Text,
  txt, text_eq, nat_eq, ◌==◌, if◌then◌else◌, length, find_first, is_empty,
}
use log_agent.Prelude.Members.{contains}
use log_agent.Commands.{Flow, Line}
use log_agent.Workspace.{Workspace, ShelfFile, Group, edit_group, with_flows, reset_line}
use log_agent.Workspace.Groups.{group_index}
use log_agent.Prelude.{drop}
use log_agent.Prelude.Texts.{starts_with}

abbrev pub opening : Text
opening = txt "[[file:"

abbrev pub closing : Text
closing = txt "]]"

-- `[^\]]+`, and what follows.
abbrev pub up_to_bracket : Text → Text × Text
up_to_bracket [] = ([], [])
up_to_bracket (c ∷ text) =
    let (id, rest) = up_to_bracket text in if c == 93 then ([], c ∷ text) else (c ∷ id, rest)

unfoldable pub closed_id : Text × Text → Option Text
unfolding starts_with
closed_id (id, rest) = if not (is_empty id) && starts_with closing rest then some id else none

-- `\[\[file:([^\]]+)\]\]` at the start of a text.
unfoldable pub match_file : Text → Option Text
unfolding closed_id starts_with
match_file text =
    if starts_with opening text
    then closed_id (up_to_bracket (drop (length opening) text))
    else none

-- The matches from left to right; `skip` is what is left of the last match.
unfoldable pub match_files : ℕ → Text → List Text
unfolding match_file
match_files skip [] = []
match_files (suc skip) (c ∷ text) = match_files skip text
match_files zero (c ∷ text) = elim (match_file (c ∷ text)) [
  | none ↦ match_files 0 text
  | some id ↦ id ∷ match_files (length id + 8) text
]

-- `commandLineFileIds`
unfoldable pub command_line_file_ids : Line → List Text
unfolding match_files
command_line_file_ids line =
    if line.upload
    then (if is_empty line.file_id then [] else line.file_id ∷ [])
    else match_files 0 line.text

pub record FileRef : Type 0 where
  pub id : Text
  pub name : Text
  pub count : ℕ

abbrev pub or_name : Text → Text → Text
or_name [] other = other
or_name (c ∷ name) other = c ∷ name

-- One more reference to a file, with the name that the line has for it.
unfoldable pub add_ref : Text → Text → List FileRef → List FileRef
add_ref id name [] = (record { id = id; name = name; count = 1 }) ∷ []
add_ref id name (ref ∷ refs) =
    let rest = add_ref id name refs in
    if ref.id == id
    then record ref { name = or_name ref.name name; count = ref.count + 1 } ∷ refs
    else ref ∷ rest

unfoldable pub add_refs : List Text → Text → List FileRef → List FileRef
unfolding add_ref
add_refs [] name refs = refs
add_refs (id ∷ ids) name refs = add_refs ids name (add_ref id name refs)

unfoldable pub lines_refs : List Line → List FileRef → List FileRef
unfolding add_refs command_line_file_ids
lines_refs [] refs = refs
lines_refs (line ∷ lines) refs =
    lines_refs lines (add_refs (command_line_file_ids line) line.file_name refs)

-- The map that `commandGroupFileRefs` fills, in the order in which its keys come in.
unfoldable pub flows_refs : List Flow → List FileRef → List FileRef
unfolding lines_refs
flows_refs [] refs = refs
flows_refs (flow ∷ flows) refs = flows_refs flows (lines_refs flow.lines refs)

abbrev pub find_file : Text → List ShelfFile → Option ShelfFile
find_file id files = find_first (λ (file : ShelfFile). file.id == id) files

abbrev pub shelf_name : Option ShelfFile → Text → Text → Text
shelf_name none name removed = or_name name removed
shelf_name (some file) name removed = or_name file.name (or_name name removed)

abbrev pub is_missing : Option ShelfFile → Bool
is_missing none = true
is_missing (some file) = not file.has_content

pub record ShownRef : Type 0 where
  pub id : Text
  pub name : Text
  pub count : ℕ
  pub missing : Bool

-- `commandGroupFileRefs`; `removed` is the text for a file without a name.
unfoldable pub command_group_file_refs : List ShelfFile → Text → Group → List ShownRef
unfolding flows_refs
command_group_file_refs files removed g =
    map
      (λ (ref : FileRef). record {
        id = ref.id;
        name = shelf_name (find_file ref.id files) ref.name removed;
        count = ref.count;
        missing = is_missing (find_file ref.id files);
      })
      (flows_refs g.flows [])

-- `text.split(old).join(new)` for an `old` that is not empty.
unfoldable pub replace_text : Text → Text → ℕ → Text → Text
unfolding starts_with
replace_text old new skip [] = []
replace_text old new (suc skip) (c ∷ text) = replace_text old new skip text
replace_text old new zero (c ∷ text) =
    let at_match = replace_text old new (length old - 1) text in
    let past = replace_text old new 0 text in
    if starts_with old (c ∷ text) then new ++ at_match else c ∷ past

abbrev pub file_tag : Text → Text
file_tag id = opening ++ id ++ closing

unfoldable pub replace_in_line : Text → ShelfFile → Line → Line
unfolding command_line_file_ids replace_text
replace_in_line old_id item line =
    if contains old_id (command_line_file_ids line)
    then reset_line (
        if line.upload
        then record line { file_id = item.id; file_name = item.name }
        else record line { text = replace_text (file_tag old_id) (file_tag item.id) 0 line.text })
    else line

abbrev pub replace_in_flow : Text → ShelfFile → Flow → Flow
replace_in_flow old_id item flow = record flow {
  lines = map (replace_in_line old_id item) flow.lines;
}

unfoldable pub replace_at : Text → ShelfFile → Option ℕ → Workspace → Workspace
unfolding replace_in_line
replace_at old_id item none w = w
replace_at old_id item (some k) w = record w {
  groups = edit_group k (with_flows (map (replace_in_flow old_id item))) w.groups;
}

-- `replaceCommandGroupFile`
unfoldable pub replace_command_group_file : Text → Text → Option ShelfFile → Workspace → Workspace
unfolding replace_at
replace_command_group_file group_id old_id none w = w
replace_command_group_file group_id old_id (some item) w =
    if old_id == item.id then w else replace_at old_id item (group_index group_id w.groups) w
