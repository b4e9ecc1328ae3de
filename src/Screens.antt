-- ===== src/Screens.antt =====
-- The lists and buttons of Controller/SearchVC.swift, PresentsVC.swift and
-- UserVC.swift. An index out of range stops the program and is `none`.
pub mod Rows
pub mod Shelf
pub mod Toggle
use Prim.Native.Char.{code}
use Prim.Native.String.{◌++◌ as concat}
use on_my_way.Base.{
  ℕ, zero, suc, String, Bool, true, false, not, ◌&&◌, Option, none, some, List, [], ◌∷◌, ◌++◌, eqb,
  length, ◌==◌, if◌then◌else◌,
}
use on_my_way.Database.{Database}
use on_my_way.Model.{User, Present, contains_user}
use on_my_way.Social.{find_users, follow_user, unfollow_user}

-- SearchVC: `filteredUsers`, `searchActive` and `currentText`; `rows` is the number of rows that the
-- table was given at its last reload.
pub record Search : Type 0 where
  pub filtered_users : List User
  pub search_active : Bool
  pub current_text : Option String
  pub rows : ℕ

-- `textDidBeginEditing` and `textDidEndEditing`
unfoldable pub begin_editing : Search → Search
begin_editing s = record s { search_active = true }

unfoldable pub end_editing : Search → Search
end_editing s = record s { search_active = false }

-- `textDidChange`, with the query that is sent: `findUsers` returns at once for an empty text.
unfoldable pub text_did_change : String → Search → Search × Option String
text_did_change text s =
    (record s { current_text = some text }, if text == "" then none else some text)

-- `numberOfRowsInSection`, with the users followed
unfoldable pub number_of_rows : List User → Search → ℕ
number_of_rows follows s = if s.search_active then length s.filtered_users else length follows

-- `reloadData`
unfoldable pub reload_data : List User → Search → Search
unfolding number_of_rows
reload_data follows s = record s { rows = number_of_rows follows s }

abbrev pub user_in : List User → ℕ → Option User
user_in [] row = none
user_in (u ∷ us) zero = some u
user_in (u ∷ us) (suc row) = user_in us row

-- The user of `cellForRowAt` and of `didSelectRowAt`
unfoldable pub user_for_row : List User → Search → ℕ → Option User
user_for_row follows s row =
    if s.search_active then user_in s.filtered_users row else user_in follows row

-- The block of `getPresents` in PresentsVC: an empty answer leaves the array.
unfoldable pub on_presents : List Present → List Present → List Present
on_presents [] present_array = present_array
on_presents (p ∷ ps) present_array = p ∷ ps

module _ (f : Database) where
  open f use {Db}

  -- The block of `getFilteredUsers`, on the answer to a query; `follows` are the users followed.
  unfoldable pub on_found : Db → String → List User → String → Search → Search
  unfolding reload_data
  on_found db current follows text s = elim (find_users f db current text) [
    | none ↦ s
    | some returned ↦ reload_data follows (record s { filtered_users = returned })
  ]

  -- A tap on the button of UserVC: the tree, and the flag `following`.
  unfoldable pub did_select : Db → String → String → Bool → Db × Bool
  did_select db current uid following =
      if not following
      then ((follow_user f db current uid).0, true)
      else ((unfollow_user f db current uid).0, false)
