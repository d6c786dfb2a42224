-- ===== src/Fzy/Interface/Keys.antt =====
-- The keys of examples/fzy.c.
use clang_witness_inject.Prelude.{
  Bool, true, false, ◌&&◌, Option, some, List, [], ◌∷◌, Text, codes, text_eq, ◌==◌, if◌then◌else◌,
}

-- The functions that a key can be bound to.
pub data Action : Type 0 where
  action_exit action_del_char action_del_word action_del_all action_autocomplete action_emit :
      Action
  action_prev action_next action_beginning action_end action_left action_right : Action
  action_pageup action_pagedown action_ignore : Action

abbrev pub Binding : Type 0
Binding = Text × Action

-- A key that the escape character begins.
abbrev escape : Text → Text
escape s = 27 ∷ s

abbrev pub keybindings : List Binding
keybindings =
    (escape [], action_exit)
    ∷ (127 ∷ [], action_del_char)
    ∷ (8 ∷ [], action_del_char)
    ∷ (23 ∷ [], action_del_word)
    ∷ (21 ∷ [], action_del_all)
    ∷ (9 ∷ [], action_autocomplete)
    ∷ (3 ∷ [], action_exit)
    ∷ (4 ∷ [], action_exit)
    ∷ (7 ∷ [], action_exit)
    ∷ (13 ∷ [], action_emit)
    ∷ (16 ∷ [], action_prev)
    ∷ (14 ∷ [], action_next)
    ∷ (11 ∷ [], action_prev)
    ∷ (10 ∷ [], action_next)
    ∷ (1 ∷ [], action_beginning)
    ∷ (5 ∷ [], action_end)
    ∷ (escape (codes "OD"), action_left)
    ∷ (escape (codes "[D"), action_left)
    ∷ (escape (codes "OC"), action_right)
    ∷ (escape (codes "[C"), action_right)
    ∷ (escape (codes "[1~"), action_beginning)
    ∷ (escape (codes "[H"), action_beginning)
    ∷ (escape (codes "[4~"), action_end)
    ∷ (escape (codes "[F"), action_end)
    ∷ (escape (codes "[A"), action_prev)
    ∷ (escape (codes "OA"), action_prev)
    ∷ (escape (codes "[B"), action_next)
    ∷ (escape (codes "OB"), action_next)
    ∷ (escape (codes "[5~"), action_pageup)
    ∷ (escape (codes "[6~"), action_pagedown)
    ∷ (escape (codes "[200~"), action_ignore)
    ∷ (escape (codes "[201~"), action_ignore)
    ∷ []

-- `strncmp(s, key, strlen(s)) == 0`.
unfoldable pub begins : Text → Text → Bool
begins [] key = true
begins (c ∷ s) [] = false
begins (c ∷ s) (k ∷ key) = c == k && begins s key

-- The action of the last key that is the input, and whether the input begins a further key.
pub record Found : Type 0 where
  pub keybinding : Option Action
  pub in_middle : Bool

-- The loop over the keys.
unfoldable pub find_keybinding : Text → Found → List Binding → Found
find_keybinding input found [] = found
find_keybinding input found ((key, action) ∷ keys) =
    find_keybinding input
      (if text_eq input key
        then record found { keybinding = some action }
        else if begins input key
        then record found { in_middle = true }
        else found)
      keys
