-- ===== src/Shell.antt =====
-- src/shell.rs: the console. A line names a call, and for some calls a path. What a call prints is
-- left out.
pub mod Paths
pub mod Loop
use qumulus.Base.{
  Bool, true, false, Option, none, some, List, [], ◌∷◌, ◌++◌, ◌==◌, if◌then◌else◌, is_empty,
}
use qumulus.Text.{Text, text, text_eq}
use qumulus.TreePath.{TreePath}

-- `splitn(2, ' ')`: what stands before the first space, and what stands after it.
unfoldable pub split_once : Text → Text × Option Text
split_once [] = ([], none)
split_once (c ∷ s) =
    let (first, rest) = split_once s in if c == b' ' then ([], some s) else (c ∷ first, rest)

-- A byte in front of the first part.
abbrev pub onto_first : Text → List Text → List Text
onto_first s [] = s ∷ []
onto_first s (p ∷ parts) = (s ++ p) ∷ parts

-- `split('.')`.
unfoldable pub split_dots : Text → List Text
split_dots [] = [] ∷ []
split_dots (c ∷ s) = if c == b'.' then [] ∷ split_dots s else onto_first (c ∷ []) (split_dots s)

-- The path that a text stands for.
unfoldable pub path_of : Text → TreePath
unfolding split_dots
path_of s = if is_empty s then [] else split_dots s

pub data ShellCall : Type 0 where
  active sync sync_all stats shutdown nothing bad_command : ShellCall
  store_dump zone_dump zone_sync : TreePath → ShellCall

abbrev or_empty : Option Text → Text
or_empty none = []
or_empty (some s) = s

-- The call of a line, as `command_loop` picks it.
unfoldable pub parse_line : Text → ShellCall
unfolding split_once path_of text_eq
parse_line line =
    let (name, rest) = split_once line in
    let path = path_of (or_empty rest) in
    if text_eq name (text "active")
    then active
    else if text_eq name (text "cluster.sync")
    then sync
    else if text_eq name (text "cluster.sync_all")
    then sync_all
    else if text_eq name (text "store.dump")
    then store_dump path
    else if text_eq name (text "stats")
    then stats
    else if text_eq name (text "zone.dump")
    then zone_dump path
    else if text_eq name (text "zone.sync")
    then zone_sync path
    else if text_eq name (text "exit")
    then shutdown
    else if text_eq name (text "quit")
    then shutdown
    else if text_eq name (text "shutdown")
    then shutdown
    else if is_empty name
    then nothing
    else bad_command
