-- ===== src/Final/Client/Requests.antt =====
-- `parse_request` of Final/src/client.c on a line of four or five words.
use cse_344_system_programmi.Base.{
  ℕ, ◌<◌, ◌≡◌, refl, true, Option, none, some, List, [], ◌∷◌, ◌++◌, length, ltb, arith,
}
use cse_344_system_programmi.Base.Text.{Str, codes}
use cse_344_system_programmi.Final.Structs.{
  ServerRequest, real_estate_size, city_name_size, word_length,
}
use cse_344_system_programmi.Final.Words.{get_date}
use cse_344_system_programmi.Final.Words.Splitting.{IsWord, spell, split_str-spell}
use cse_344_system_programmi.Final.Client.{parse_request}

-- A word that leaves room for its NUL.
abbrev pub Fits : ℕ → Str → Type 0
Fits size w = IsWord 32 w × (length w < size)

-- The city that a line ends with, if any, after a number of more blanks than one.
abbrev pub city_part : Option (ℕ × Str) → List (ℕ × Str)
city_part none = []
city_part (some c) = c ∷ []

abbrev pub city_or_all : Option (ℕ × Str) → Str
city_or_all none = codes "all"
city_or_all (some c) = c.1

abbrev pub CityFits : Option (ℕ × Str) → Type 0
CityFits none = Unit
CityFits (some c) = Fits city_name_size c.1

-- A line of an order, a type, two dates and perhaps a city, with any blanks between them, is parsed
-- into these; without a city the request is for "all".
pub parse_request-spell :
    (junk : ServerRequest) (order real_estate from to : Str) (k1 k2 k3 : ℕ)
    (city : Option (ℕ × Str))
    → Fits word_length order
    → Fits real_estate_size real_estate
    → IsWord 32 from
    → IsWord 32 to
    → CityFits city
    → parse_request junk
        (order ++ spell 32 ((k1, real_estate) ∷ (k2, from) ∷ (k3, to) ∷ city_part city))
      ≡ some (record junk {
        order_type = order;
        real_estate = real_estate;
        start_date = get_date from;
        end_date = get_date to;
        city_name = city_or_all city;
      })
unfolding parse_request
parse_request-spell junk order real_estate from to k1 k2 k3 none fo fr ff ft fc =
    let split =
      split_str-spell 32 order ((k1, real_estate) ∷ (k2, from) ∷ (k3, to) ∷ []) 0 fo.0
        (fr.0, (ff, (ft, tt))) (omega arith) in
    let a : ltb (length order) word_length ≡ true = ground (arith, fo.1) in
    let b : ltb (length real_estate) real_estate_size ≡ true = ground (arith, fr.1) in
    rw (parse_request, split, a, b) refl
parse_request-spell junk order real_estate from to k1 k2 k3 (some (k, city)) fo fr ff ft fc =
    let split =
      split_str-spell 32 order ((k1, real_estate) ∷ (k2, from) ∷ (k3, to) ∷ (k, city) ∷ []) 0 fo.0
        (fr.0, (ff, (ft, (fc.0, tt)))) (omega arith) in
    let a : ltb (length order) word_length ≡ true = ground (arith, fo.1) in
    let b : ltb (length real_estate) real_estate_size ≡ true = ground (arith, fr.1) in
    let c : ltb (length city) city_name_size ≡ true = ground (arith, fc.1) in
    rw (parse_request, split, a, b, c) refl
