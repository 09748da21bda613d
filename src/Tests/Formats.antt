-- ===== src/Tests/Formats.antt =====
-- How the amounts of the tests are written.
use lidenal85_blip.Base.{ltb, eqb, if◌then◌else◌, ℕ, zero, suc, ◌+◌, ◌/◌, String, ◌<>◌}
use lidenal85_blip.Base.Texts.{join}
use Prim.Native.Nat.{◌%◌}
use Prim.Native.String.{slice}
use lidenal85_blip.Contracts.Value.{natural, negative}
use lidenal85_blip.Delivery.Templates.{Formats}

-- the last `n` digits of a number, without its leading zeros
abbrev digits : ℕ → ℕ → String
digits zero x = ""
digits (suc n) x =
    digits n (x / 10) <> (if ltb 0 x then slice "0123456789" (x % 10) (x % 10 + 1) else "")

abbrev written : ℕ → String
written x = if eqb x 0 then "0" else digits 6 x

abbrev pub dollars : Formats ℕ
dollars = record {
  fixed2 = λ x. written (x / 100) <> ("." <> (written (x % 100 / 10) <> written (x % 10)));
  percent = λ x. written x <> "%";
  float_text = λ x. written (x / 100) <> ("." <> written (x % 100));
  int_text = λ i. elim i [ natural n ↦ written n | negative n ↦ "-" <> written (n + 1) ];
  list_text = λ ss. "['" <> (join "', '" ss <> "']");
  title_case = λ s. s;
}
