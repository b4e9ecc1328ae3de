-- ===== src/Forms/Entry.antt =====
-- The first sign-in with a number, the form of Controller/PhoneSignUpVC.swift, and the next sign-in.
use Prim.Native.String.{◌++◌ as concat}
use on_my_way.Base.{String, ◌≡◌, some}
use on_my_way.Database.{Database, words}
use on_my_way.Keys.UserKeys
use on_my_way.Accounts.{below_user}

module _ (f : Database) where
  open f use {Db, read, exists, update_child_values}

  abbrev HasNumber : Db → String → String → Type 0
  HasNumber db uid phone = read db (below_user uid UserKeys.phone_number) ≡ some (words phone)
