-- ===== src/Text/Url/Tests.antt =====
-- dttools/src/url_encode.c at work.
use murphy.Base.{◌≡◌, refl, none, some, ◌∷◌, codes, arith}
use murphy.Text.Url.{is_escaped, hex_digit, escape, url_encode, scan_hex, url_decode}
use murphy.Text.Url.RoundTrip.{url_decode-url_encode, url_decode_high}

encode_runs :
    (url_encode (codes "a b%") 20 ≡ codes "a%20b%25")
    × (url_encode (codes "a b") 4 ≡ codes "a")
    × (url_encode (9 ∷ codes "A") 20 ≡ codes "% 9A")
unfolding url_encode is_escaped escape hex_digit
encode_runs = (refl, refl, refl)

-- A tab is written with a blank, which `sscanf` passes over: the digit behind it is read too.
tab_run : url_decode 0 (codes "% 9A") 20 ≡ some (154 ∷ codes "A")
unfolding url_decode scan_hex
tab_run = refl

-- A `%` at the end makes the code read behind the text.
end_run : url_decode 0 (codes "a%4") 20 ≡ none
unfolding url_decode scan_hex
end_run = refl

url_decode-url_encode_example : url_decode 0 (url_encode (codes "a b") 20) 9 ≡ some (codes "a b")
url_decode-url_encode_example =
    url_decode-url_encode (codes "a b") 20 9 (omega arith) (omega arith) (omega arith)

url_decode_high_example : url_decode 0 (url_encode (200 ∷ codes "a") 20) 9 ≡ some (255 ∷ codes "a")
url_decode_high_example =
    url_decode_high 200 (codes "a") 20 9 (omega arith) (omega arith) (omega arith) (omega arith)
