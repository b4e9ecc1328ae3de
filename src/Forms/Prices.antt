-- ===== src/Forms/Prices.antt =====
-- What `check_input` of Controller/AddPresentsVC.swift stores.
use Prim.Native.String.{◌++◌ as concat}
use on_my_way.Base.{
  ℕ, String, ◌≡◌, ◌≢◌, ◌↔◌, refl, true, false, not, ◌||◌, Option, none, some, List, Member, ◌⊎◌,
  eq_iff, arith,
}
use on_my_way.Database.{Database}
use on_my_way.Model.{Present}
use on_my_way.Accounts.{Upload, put_failed, downloaded, upload_media}
use on_my_way.Presents.{presents_ref, get_presents}
use on_my_way.Presents.Reading.{IsComplete}
use on_my_way.Presents.Writing.{new_present, get_presents-upload_present}
use on_my_way.Forms.{
  crashed, done, is_code, ruble, last_code, with_currency, is_empty, add_with_image, check_input,
}

never_both : (o : Option ℕ) → (not (is_code b'$' o) || not (is_code ruble o)) ≡ true
never_both none = refl
never_both (some d) = ground arith

-- The bug: no text ends with a dollar and a ruble sign, so the sign is always appended.
with_currency_lem : (dollar price : String) → with_currency dollar price ≡ concat price dollar
unfolding with_currency
with_currency_lem dollar price = rw (never_both (last_code price)) refl

pub filled : (s : String) → s ≢ "" → is_empty s ≡ false
filled s h = ground (arith, eq_iff s "", h)

module _ (f : Database) where
  open f use {Db, auto_key}

  check_input_filled :
      (db : Db) (uid dollar name description price link : String) (upload : Upload)
      → name ≢ ""
      → price ≢ ""
      → check_input f db uid dollar name description price link upload
        ≡ add_with_image f db uid name description (concat price dollar) link (upload_media upload)
  unfolding check_input
  check_input_filled db uid dollar name description price link upload h k =
      rw (filled name h, filled price k, with_currency_lem dollar price) refl

  -- For a name and a price that are not empty, where the presents of the user are complete and the
  -- database gives a key: with an address of the uploaded image `check_input` succeeds, and
  -- `getPresents` then ends with the presents from before and the new one, whose price is the text of
  -- the field with the dollar sign after it, whatever sign the text ends with; and where the upload
  -- fails, the forced unwrapping of its address crashes and nothing is stored.
  pub get_presents-check_input :
      (db : Db) (uid dollar name description price link url key : String)
      → name ≢ ""
      → price ≢ ""
      → IsComplete f uid db
      → auto_key db (presents_ref uid) ≡ some key
      → let added =
          check_input f db uid dollar name description price link (downloaded (some url)) in
        (added.1 ≡ done)
        × ((ps : List Present) × (new : List Present) × (get_presents f db uid ≡ some ps)
            × (get_presents f added.0 uid ≡ some new)
            × ((p : Present)
                → Member p new ↔ (
                    (p ≡ new_present key name description (concat price dollar) url link)
                    ⊎ Member p ps)))
        × (check_input f db uid dollar name description price link put_failed ≡ (db, crashed))
  unfolding upload_media
  get_presents-check_input db uid dollar name description price link url key h k w a =
      let (ps, new, g, ok, g1, m) =
        get_presents-upload_present f uid db name description (concat price dollar) url link key w
          a in
      let filled_in = check_input_filled db uid dollar name description price link in
      (
        rw (filled_in (downloaded (some url)) h k, ok) refl,
        (ps, new, g, rw (filled_in (downloaded (some url)) h k) g1, m),
        filled_in put_failed h k,
      )
