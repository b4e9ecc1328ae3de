-- ===== src/Model/Dates.antt =====
-- The computed dates of Model/Event.swift. Foundation's DateFormatter and Date are an interface; a
-- `fatalError` is `none`.
use on_my_way.Base.{String, ◌≡◌, Bool, true, false, Option, none, some}
use on_my_way.Model.{Event}

-- The formats "dd-MM-yyyy" in English, and "dd MMM yyyy", "dd" and "MMM" in the locale of the user.
pub data Style : Type 0 where
  uniform local day_only month_only : Style

pub record Calendar : Type 1 where
  pub Date : Type 0
  -- `<` of Date
  pub is_before : Date → Date → Bool
  pub format : Style → Date → String
  pub parse : Style → String → Option Date
  pub before_asym : (x y : Date) → is_before x y ≡ true → is_before y x ≡ false
  pub before_trans :
      (x y z : Date) → is_before y x ≡ false → is_before z y ≡ false → is_before z x ≡ false

module _ (c : Calendar) where
  open c use {Date, format, parse}

  -- `convertedDate`
  unfoldable pub converted_date : Event → Option Date
  converted_date event = elim (parse uniform event.date) [
    | none ↦ none
    | some input_date ↦ parse local (format local input_date)
  ]

  -- `day` and `month`
  unfoldable pub day : Event → Option String
  day event = elim (converted_date event) [ none ↦ none | some x ↦ some (format day_only x) ]

  unfoldable pub month : Event → Option String
  month event = elim (converted_date event) [ none ↦ none | some x ↦ some (format month_only x) ]
