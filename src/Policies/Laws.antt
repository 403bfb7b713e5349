-- ===== src/Policies/Laws.antt =====
-- Which of the embedded files are the modules that the PDP compiles.
use zta_core.Base.{
  String, Bool, false, not, ◌&&◌, ◌||◌, Option, none, some, List, [], ◌∷◌, ◌==◌, Result, ok, err,
}
use zta_core.Policies.{Entry}

abbrev pub content : Result String → Option String
content (ok b) = some b
content (err e) = none

-- Whether a file of this path is among the entries.
abbrev pub listed : String → List Entry → Bool
listed path [] = false
listed path (entry ∷ entries) = (not entry.is_dir && entry.path == path) || listed path entries
