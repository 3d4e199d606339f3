-- ===== src/Workspace/Favorites.antt =====
-- app.js: the favourites, copies of the main list under a name: `commandFavoriteSnapshot`,
-- `saveCommandFavorite`, `restoreCommandFavorite` and `deleteCommandFavorite`.
use log_agent.Prelude.{
  All, ℕ, suc, Bool, false, not, List, [], ◌∷◌, map, Option, none, some, Text, text_eq, nat_eq,
  ◌==◌, ◌≡◌, refl, ap, if◌then◌else◌, filterb, take, find_first, is_empty,
}
use log_agent.Prelude.Members.{beq_refl}
use log_agent.Commands.{no_host, Flow, Line, Status}
use log_agent.Workspace.{Workspace, Favorite, ShelfFile}
use log_agent.Prelude.Texts.{trim}

abbrev pub name_or : Option ShelfFile → Text → Text
name_or none other = other
name_or (some file) other = if is_empty file.name then other else file.name

abbrev pub favorite_line : List ShelfFile → Line → Line
favorite_line files line = record line {
  file_name =
      name_or (find_first (λ (file : ShelfFile). file.id == line.file_id) files) line.file_name;
  status = Status.idle;
  error_text = none;
  error_code = none;
  upload_progress = 0;
}

-- `commandFavoriteSnapshot`
unfoldable pub command_favorite_snapshot : Workspace → List Flow
command_favorite_snapshot w =
    map
      (λ (flow : Flow). record flow {
        lines = map (favorite_line w.files) flow.lines;
        run_cwd = none;
        own_host = no_host;
      })
      w.flows

abbrev pub max_favorites : ℕ
max_favorites = 50

-- `saveCommandFavorite`; `typed` is the text of the field and `now` the time.
unfoldable pub save_command_favorite : Text → Text → ℕ → Workspace → Workspace
unfolding command_favorite_snapshot
save_command_favorite new_id typed now w = if is_empty (trim typed) then w else record w {
  favorites = take max_favorites (
      (record {
        id = new_id;
        name = trim typed;
        created_at = now;
        flows = command_favorite_snapshot w;
      })
      ∷ w.favorites);
}

abbrev pub restored_line : Line → Line
restored_line line = record line { status = Status.idle; upload_progress = 0; error_text = some [] }

-- The flow at an index gets the new id of that index.
unfoldable pub restored_flows : (ℕ → Text) → ℕ → List Flow → List Flow
restored_flows new_ids index [] = []
restored_flows new_ids index (flow ∷ flows) =
    record flow { id = new_ids index; lines = map restored_line flow.lines }
    ∷ restored_flows new_ids (suc index) flows

unfoldable pub restore_flows : (ℕ → Text) → List Flow → Workspace → Workspace
unfolding restored_flows
restore_flows new_ids [] w = w
restore_flows new_ids (flow ∷ flows) w = record w {
  flows = restored_flows new_ids 0 (flow ∷ flows);
  active_flow_id = new_ids 0;
}

unfoldable pub restore_found : (ℕ → Text) → Option Favorite → Workspace → Workspace
unfolding restore_flows
restore_found new_ids none w = w
restore_found new_ids (some favorite) w = restore_flows new_ids favorite.flows w

-- `restoreCommandFavorite`
unfoldable pub restore_command_favorite : (ℕ → Text) → Text → Workspace → Workspace
unfolding restore_found
restore_command_favorite new_ids favorite_id w =
    restore_found new_ids (find_first (λ (item : Favorite). item.id == favorite_id) w.favorites) w

-- `deleteCommandFavorite`
unfoldable pub delete_command_favorite : Text → Workspace → Workspace
delete_command_favorite favorite_id w = record w {
  favorites = filterb (λ (item : Favorite). not (item.id == favorite_id)) w.favorites;
}

-- What a flow does, without its id and what its last run left.
abbrev pub line_content : Line → Bool × Text × Text × Text
line_content line = (line.upload, line.text, line.file_id, line.destination)

abbrev pub content : Flow → Text × Text × List (Bool × Text × Text × Text)
content flow = (flow.name, flow.server_id, map line_content flow.lines)

content-lines :
    (files : List ShelfFile) (lines : List Line)
    → map line_content (map restored_line (map (favorite_line files) lines))
      ≡ map line_content lines
content-lines files [] = refl
content-lines files (line ∷ lines) = rw (content-lines files lines) refl

content-restored :
    (new_ids : ℕ → Text) (index : ℕ) (files : List ShelfFile) (flows : List Flow)
    → map content (
        restored_flows new_ids index (
          map
            (λ (flow : Flow). record flow {
              lines = map (favorite_line files) flow.lines;
              run_cwd = none;
              own_host = no_host;
            })
            flows))
      ≡ map content flows
unfolding restored_flows
content-restored new_ids index files [] = refl
content-restored new_ids index files (flow ∷ flows) =
    rw (content-lines files flow.lines, content-restored new_ids (suc index) files flows) refl

-- No line of a flow has run.
abbrev pub AllIdle : List Flow → Type 0
AllIdle flows =
    All (λ (flow : Flow). All (λ (line : Line). line.status ≡ Status.idle) flow.lines) flows

restored-lines-AllIdle :
    (lines : List Line) → All (λ (line : Line). line.status ≡ Status.idle) (map restored_line lines)
restored-lines-AllIdle [] = tt
restored-lines-AllIdle (line ∷ lines) = (refl, restored-lines-AllIdle lines)

restored-AllIdle :
    (new_ids : ℕ → Text) (index : ℕ) (flows : List Flow)
    → AllIdle (restored_flows new_ids index flows)
unfolding restored_flows
restored-AllIdle new_ids index [] = tt
restored-AllIdle new_ids index (flow ∷ flows) =
    (restored-lines-AllIdle flow.lines, restored-AllIdle new_ids (suc index) flows)

restore_flows-flows :
    (new_ids : ℕ → Text) (flows : List Flow) (w : Workspace)
    → is_empty flows ≡ false
    → (restore_flows new_ids flows w).flows ≡ restored_flows new_ids 0 flows
unfolding restore_flows
restore_flows-flows new_ids [] w h = cc
restore_flows-flows new_ids (flow ∷ flows) w h = refl

snapshot_full :
    (f : Flow → Flow) (flows : List Flow) → is_empty flows ≡ false → is_empty (map f flows) ≡ false
snapshot_full f [] h = cc
snapshot_full f (flow ∷ flows) h = refl

restored_is :
    (new_ids : ℕ → Text) (id typed : Text) (now : ℕ) (w v : Workspace)
    → is_empty (trim typed) ≡ false
    → v.favorites ≡ (save_command_favorite id typed now w).favorites
    → restore_command_favorite new_ids id v ≡ restore_flows new_ids (command_favorite_snapshot w) v
unfolding save_command_favorite restore_command_favorite restore_found
restored_is new_ids id typed now w v named e =
    let found : find_first (λ (item : Favorite). item.id == id) v.favorites
        ≡ some (record {
          id = id;
          name = trim typed;
          created_at = now;
          flows = command_favorite_snapshot w;
        }) =
      rw (e, named, beq_refl id) refl in
    ap (λ item. restore_found new_ids item v) found

-- A favourite that is saved under a name that is not blank, and restored later from a workspace
-- that has the same favourites, gives back the flows of the main list of that time, in their
-- order: their names, servers and lines (what they upload or run, and to where), with every line
-- idle. The list that it is saved from is not empty.
pub restore-save :
    (new_ids : ℕ → Text) (id typed : Text) (now : ℕ) (w v : Workspace)
    → is_empty w.flows ≡ false
    → is_empty (trim typed) ≡ false
    → v.favorites ≡ (save_command_favorite id typed now w).favorites
    → (map content (restore_command_favorite new_ids id v).flows ≡ map content w.flows)
      × AllIdle (restore_command_favorite new_ids id v).flows
unfolding command_favorite_snapshot
restore-save new_ids id typed now w v full named e =
    rw
      (
        restored_is new_ids id typed now w v named e,
        restore_flows-flows new_ids (command_favorite_snapshot w) v (snapshot_full _ w.flows full),
      )
      (
        content-restored new_ids 0 w.files w.flows,
        restored-AllIdle new_ids 0 (command_favorite_snapshot w),
      )
