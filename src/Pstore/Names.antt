-- ===== src/Pstore/Names.antt =====
-- pstore/pstore-clean.c: the name under which a rule is looked up, and the rules. The tree of the
-- configuration, read by cutils, is a parameter.
use android_device_xiaomi_la.Common.{
  ℕ, zero, suc, ◌+◌, not, ◌&&◌, [], ◌∷◌, Option, none, some, get_or, take, ◌==◌, if◌then◌else◌,
  Text, text, equal, is_digit,
}

-- The loop of getbasefilename from index `i` on, with the last '-' found so far and the characters
-- of the buffer that are left: the last '-' and the length.
unfoldable pub scan : ℕ → ℕ → ℕ → Text → ℕ × ℕ
scan i last zero rest = (last, i)
scan i last (suc room) [] = (last, i)
scan i last (suc room) (c ∷ rest) = scan (i + 1) (if c == b'-' then i else last) room rest

-- getbasefilename: the length and the text of `basefilename`.
unfoldable pub getbasefilename : Text → ℕ → ℕ × Text
unfolding scan
getbasefilename filename maxlen =
    let (last, len) = scan 0 0 maxlen filename in
    if not (last == 0) && is_digit (get_or filename (last + 1) 0)
    then (last, take last filename)
    else (len, take len filename)

-- pstore_action, with the destination of a move.
pub data Action : Type 0 where
  by_default keep : Action
  move : Text → Action

-- The tree of the configuration: config_find, and config_str with NULL as default.
pub record Config : Type 1 where
  pub Node : Type 0
  -- what config_node and config_load_file give
  pub root : Option Node
  pub config_find : Node → Text → Option Node
  pub config_str : Node → Text → Option Text

module _ (config : Config) where
  open config use {Node, root, config_find, config_str}

  -- *dstpath
  abbrev pub destination : Option Text → Text
  destination (some path) = path
  destination none = text "/dev/null"

  -- The action of a node's text, which is not NULL.
  unfoldable pub action_of : Node → Text → Action
  action_of node action_str =
      if equal action_str (text "move")
      then move (destination (config_str node (text "destination")))
      else if equal action_str (text "keep")
      then keep
      else by_default

  -- perform_rule_check; `none` is -1. The three pointers of main are not NULL, but for the root.
  unfoldable pub perform_rule_check : Option Node → Text → Option Action
  perform_rule_check none filename = none
  perform_rule_check (some r) filename = elim (config_find r filename) [
    | none ↦ none
    | some node ↦ elim (config_str node (text "action")) [
      | none ↦ none
      | some action_str ↦ some (action_of node action_str)
    ]
  ]

  -- rulesroot
  abbrev pub rules : Option Node
  rules = elim root [ none ↦ none | some r ↦ config_find r (text "pstore_rules") ]

  abbrev pub or_default : Option Action → Action
  or_default none = by_default
  or_default (some action) = action

  -- What main does with a file. Of FILENAME_MAX it matters only that a d_name, at most 255 bytes, fits.
  unfoldable pub action_for : Text → Action
  unfolding perform_rule_check getbasefilename action_of
  action_for d_name = or_default (perform_rule_check rules (getbasefilename d_name 4096).1)
