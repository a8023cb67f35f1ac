-- ===== src/Final/Servant/Files/Tests.antt =====
-- The theorems on data files at a file of two lines.
use cse_344_system_programmi.Base.{refl, List, [], ◌∷◌, arith}
use cse_344_system_programmi.Base.Int.{pos}
use cse_344_system_programmi.Base.Text.{Str, codes, All-of_is_plain}
use cse_344_system_programmi.Final.Structs.{TransactionArg}
use cse_344_system_programmi.Final.Words.Splitting.{IsWord-of_is_free}
use cse_344_system_programmi.Final.Servant.Files.Reading.{IsLine}

abbrev pub line : Str
line = codes "17 villa ADANA 100 80"

abbrev pub villa : TransactionArg
villa = record {
  transaction_id = pos 17;
  real_estate_type = codes "villa";
  city_name = codes "ADANA";
  price = pos 100;
  surface_area = pos 80;
}

pub line-IsLine : IsLine line villa
line-IsLine = record {
  fits = omega arith;
  no_break = All-of_is_plain line refl;
  says = record {
    id = codes "17";
    real_estate = codes "villa";
    city = codes "ADANA";
    price = codes "100";
    area = codes "80";
    blanks = (0, 0, 0, 0);
    spelled = refl;
    id_word = IsWord-of_is_free 32 _ _ refl refl;
    real_estate_word = IsWord-of_is_free 32 _ _ refl refl;
    city_word = IsWord-of_is_free 32 _ _ refl refl;
    price_word = IsWord-of_is_free 32 _ _ refl refl;
    area_word = IsWord-of_is_free 32 _ _ refl refl;
    digits = (
      ((omega arith, omega arith), ((omega arith, omega arith), tt)),
      ((omega arith, omega arith), ((omega arith, omega arith), ((omega arith, omega arith), tt))),
      ((omega arith, omega arith), ((omega arith, omega arith), tt)),
    );
    ranges = (omega arith, omega arith, omega arith);
    real_estate_fits = omega arith;
    city_fits = omega arith;
    means = refl;
  };
}

abbrev pub empty_entry : TransactionArg
empty_entry = record {
  transaction_id = pos 0;
  real_estate_type = [];
  city_name = [];
  price = pos 0;
  surface_area = pos 0;
}

abbrev two_lines : List (Str × TransactionArg)
two_lines = (line, villa) ∷ (line, villa) ∷ []
