-- ===== src/Offline/Compact/Tests.antt =====
-- A runtime that writes instants in unary, and an instance of the theorem on compact payloads.
use creative_backend.Base.{
  ℕ, zero, suc, ◌-◌, ◌*◌, ◌<◌, String, ◌≡◌, refl, ap, false, some, arith, length,
}
use creative_backend.Base.Result.{ok}
use creative_backend.Base.Json.{nat, str, Items, nil, cons}
use creative_backend.Base.Text.{is_empty, trim, trim_id}
use creative_backend.Runtime.{Runtime}
use creative_backend.Qr.{is_token_char}
use creative_backend.Qr.Laws.{every_weaken, token_char-not_space}
use creative_backend.Qr.Toy.{toy, toy-IsRuntime, codes, letters, repeat}
use creative_backend.Offline.{date_of}
use creative_backend.Offline.Payload.{normalize_compact, compact_payload, assert_offline_qr_payload}
use creative_backend.Offline.Compact.{IsIso, element, normalize_compact-asserts}

abbrev iso_text : ℕ → String
iso_text t = letters (repeat (suc t) 0)

abbrev unary : Runtime
unary = record toy { to_iso_string = iso_text; parse_date = λ text. some (length (codes text) - 1) }

length-codes : (n : ℕ) → length (codes (letters (repeat n 0))) ≡ n
unfolding codes letters repeat
length-codes zero = refl
length-codes (suc n) = omega (arith, length-codes n)

iso_text-filled : (t : ℕ) → is_empty (trim (iso_text t)) ≡ false
unfolding repeat
iso_text-filled t =
    rw
      (trim_id (iso_text t) (
        every_weaken is_token_char _ token_char-not_space (iso_text t)
          (toy-IsRuntime.alphabet (repeat (suc t) 0))))
      (toy-IsRuntime.nonempty 0 (repeat t 0))

unary-IsIso : IsIso unary
unary-IsIso = record {
  filled = λ t h. iso_text-filled t;
  parses = λ t h. ap some (omega (arith, length-codes (suc t)));
}

abbrev code : Items
code = cons (nat 2) (
    cons (str "e1") (
      cons (str "d1") (
        cons (nat 3) (
          cons (str "op1")
            (cons (str "O2.t1") (cons (str "t1") (cons (nat 1) (cons (nat 2) nil))))))))

normalize_compact-asserts_example :
    (issued : ℕ) × (until : ℕ) × (element 7 code ≡ some (nat issued))
    × (element 8 code ≡ some (nat until))
    × (assert_offline_qr_payload unary (compact_payload unary "e1" "d1" "op1" "O2.t1" "t1" 3 1 2)
        ≡ ok (issued * 1000))
    × (date_of unary (compact_payload unary "e1" "d1" "op1" "O2.t1" "t1" 3 1 2) "validUntil"
        ≡ some (until * 1000))
    × (issued < until)
unfolding normalize_compact trim
normalize_compact-asserts_example =
    normalize_compact-asserts unary unary-IsIso code
      (compact_payload unary "e1" "d1" "op1" "O2.t1" "t1" 3 1 2) refl
