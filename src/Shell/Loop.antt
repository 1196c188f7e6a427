-- ===== src/Shell/Loop.antt =====
-- src/shell.rs, `command_loop` and what it does for each call.
use qumulus.Base.{
  ℕ, zero, suc, ◌-◌, Bool, true, false, Option, none, some, List, [], ◌∷◌, ◌++◌, length,
  if◌then◌else◌,
}
use qumulus.Node.Expand.{to_string}
use qumulus.Shell.{
  ShellCall, active, sync, sync_all, stats, shutdown, nothing, bad_command, store_dump, zone_dump,
  zone_sync, parse_line,
}
use qumulus.Store.Filename.{join}
use qumulus.Text.{Text, text}
use qumulus.TreePath.{TreePath}

-- What a zone tells of itself.
pub record ZoneInfo : Type 0 where
  pub path : TreePath
  pub size : ℕ
  pub state : ℕ

-- What the other processes answer at the time of a call, and how Rust prints it.
pub record Answers : Type 0 where
  pub active_zones : List ZoneInfo
  pub stats_json : Text
  pub stored : TreePath → Option Text
  pub dumped : TreePath → Text
  pub debug_text : Text → Text
  pub debug_state : ℕ → Text
  pub debug_path : TreePath → Text
  pub pretty_path : TreePath → Text

pub data Action : Type 0 where
  prints : Text → Action
  list_zones cluster_sync cluster_sync_all exits : Action
  load_data load_zone sync_zone : TreePath → Action

abbrev newline : Text
newline = b'\n' ∷ []

abbrev prints_line : Text → Action
prints_line s = prints (s ++ newline)

unfoldable pub spaces : ℕ → Text
spaces zero = []
spaces (suc n) = b' ' ∷ spaces n

-- `{:>8}`.
unfoldable pub right_aligned : Text → Text
unfolding spaces
right_aligned s = spaces (8 - length s) ++ s

module _ (a : Answers) where
  abbrev zone_line : ZoneInfo → Action
  zone_line z = prints_line (
      right_aligned (to_string z.size)
      ++ (text " " ++ (a.debug_state z.state ++ (text " " ++ a.debug_text (join z.path)))))

  unfoldable pub zone_lines : List ZoneInfo → List Action
  unfolding right_aligned to_string join
  zone_lines [] = []
  zone_lines (z ∷ zones) = zone_line z ∷ zone_lines zones

  abbrev store_line : TreePath → Option Text → Action
  store_line path none = prints_line (text "Could not load " ++ a.debug_path path)
  store_line path (some stored) = prints_line (text "Store data: " ++ stored)

  unfoldable pub respond : ShellCall → List Action
  unfolding zone_lines to_string
  respond active =
      list_zones
      ∷ prints_line (text "Active Zones:")
      ∷ (zone_lines a.active_zones
          ++ prints_line
              (text "Total: " ++ (to_string (length a.active_zones) ++ text " active zones"))
            ∷ [])
  respond sync = prints_line (text "Synchronizing local data with cluster...") ∷ cluster_sync ∷ []
  respond sync_all = prints_line (text "Synchronizing cluster data...") ∷ cluster_sync_all ∷ []
  respond stats = prints_line a.stats_json ∷ []
  respond shutdown = prints_line (text "Shutting down...") ∷ exits ∷ []
  respond nothing = []
  respond bad_command = prints_line (text "Bad command") ∷ []
  respond (store_dump path) = load_data path ∷ store_line path (a.stored path) ∷ []
  respond (zone_dump path) = load_zone path ∷ prints_line (text "Zone data: " ++ a.dumped path) ∷ []
  respond (zone_sync path) =
      prints_line (text "Synchronizing zone " ++ (a.pretty_path path ++ text "..."))
      ∷ sync_zone path
      ∷ []

abbrev pub prompt : Action
prompt = prints (text "> ")

abbrev pub is_shutdown : ShellCall → Bool
is_shutdown shutdown = true
is_shutdown _ = false

-- A line is read with the answers of the moment; `none` is a line that cannot be read.
unfoldable pub read_lines : List (Option Text × Answers) → List Action
unfolding respond parse_line
read_lines [] = []
read_lines ((none, a) ∷ lines) = read_lines lines
read_lines ((some line, a) ∷ lines) =
    let rest = read_lines lines in
    let call = parse_line line in respond a call ++ (if is_shutdown call then [] else prompt ∷ rest)

unfoldable pub command_loop : List (Option Text × Answers) → List Action
unfolding read_lines
command_loop lines = prompt ∷ read_lines lines
