-- ===== src/S3/Tests/Routes.antt =====
-- The router and the escaping at concrete requests.
use nimbus_store.Base.{
  ℕ, ◌+◌, ◌*◌, ◌-◌, ◌<◌, [], ◌∷◌, Bool, ◌&&◌, Option, none, some, ◌≡◌, refl, arith, All, ltb, leb,
  if◌then◌else◌,
}
use nimbus_store.Bytes.{Bytes, codes, cmp}
use nimbus_store.OrderedMap.{insert}
use nimbus_store.S3.Types.{S3Request}
use nimbus_store.S3.Router.{url_decode, parse_params, find_char, parameter, add_param}
use nimbus_store.S3.Router.Decoding.{
  ReadsHex, IsPlain, hex_digit, url_encode, url_decode-url_encode,
}
use nimbus_store.S3.Router.Query.{split_on, add_pieces, parse_params-add_pieces}
use nimbus_store.S3.Xml.{escape}
use nimbus_store.S3.Xml.Escaping.{IsText, escape_lem}
use nimbus_store.S3.Tests.{request}

-- A reader of two hexadecimal digits.
abbrev digit_value : ℕ → ℕ
digit_value c = if ltb c b'A' then c - b'0' else c - b'A' + 10

abbrev pub scan_two : Bytes → Option ℕ
scan_two (h ∷ l ∷ []) = some (digit_value h * 16 + digit_value l)
scan_two _ = none

digit_value_lem : (d : ℕ) → d < 16 → digit_value (hex_digit d) ≡ d
digit_value_lem d h = ground arith

pub scan_two-ReadsHex : ReadsHex scan_two
scan_two-ReadsHex = record {
  two_digits = λ h l p q. rw (digit_value_lem h p, digit_value_lem l q) refl;
}

-- Lower-case letters are kept.
abbrev pub letters : ℕ → Bool
letters c = leb b'a' c && leb c b'z'

pub letters-IsPlain : IsPlain letters
letters-IsPlain = record { percent = refl; plus = refl; slash = refl; question = refl }

url_decode-url_encode_example :
    url_decode scan_two (url_encode letters (codes "a/b c")) ≡ codes "a/b c"
url_decode-url_encode_example =
    url_decode-url_encode scan_two scan_two-ReadsHex letters letters-IsPlain (codes "a/b c")
      (omega arith)

abbrev encoded_request : S3Request
encoded_request = record request { uri = codes "/b/a%2Fb?max-keys=2" }

parse_params-add_pieces_example :
    parse_params scan_two 13 (codes "a=1&&b&c=d=e&") []
    ≡ add_pieces scan_two (split_on b'&' (codes "a=1&&b&c=d=e&")) []
parse_params-add_pieces_example =
    parse_params-add_pieces scan_two 13 (codes "a=1&&b&c=d=e&") [] (omega arith)

params :
    parse_params scan_two 13 (codes "a=1&&b&c=d=e&") []
    ≡ (codes "a", codes "1") ∷ (codes "b", []) ∷ (codes "c", codes "d=e") ∷ []
unfolding parse_params find_char parameter add_param url_decode insert cmp
params = refl

escape_example :
    All IsText (escape (codes "a<b>&\"c\""))
    × ((t : Bytes) → escape (codes "a<b>&\"c\"") ≡ escape t → codes "a<b>&\"c\"" ≡ t)
escape_example = escape_lem (codes "a<b>&\"c\"")
