-- ===== src/Observability/Tracing/Context.antt =====
-- observability/Observability.cc: the form of a trace context, and that a request keeps the one it
-- has.
use text.Mathlib.TextLemmas.{append_assoc, append-nil, nil-append, cons-append}
use drogon_api_starter.Prelude.{
  ℕ, ◌≡◌, refl, sym, ap, ◌∙◌, String, Bool, true, false, ◌&&◌, ◌==◌, if◌then◌else◌, Bool-cases, inl,
  inr, arith,
}
use drogon_api_starter.Text.{◌++◌, size}
use drogon_api_starter.Text.Slices.{
  char_at, take, drop, substr, char_at-drop, drop-drop, cut, size-drop, take-all, size-take,
  size-append, drop-at, take-at,
}
use drogon_api_starter.Observability.Tracing.{valid_hex, random_hex, Draws, is_context, new_context}
use drogon_api_starter.Observability.Tracing.Hex.{IsHex, valid_hex-IsHex, random_hex-digits}
use Prim.Native.String.{[], ◌∷◌}

-- `version-trace-parent-flags` in hexadecimal digits of either case, 2, 32, 16 and 2 of them.
pub record IsContext (s : String) : Type 0 where
  pub version : String
  pub trace : String
  pub parent : String
  pub flags : String
  pub form : s ≡ version ++ ("-" ++ (trace ++ ("-" ++ (parent ++ ("-" ++ flags)))))
  pub sizes : (size version ≡ 2) × (size trace ≡ 32) × (size parent ≡ 16) × (size flags ≡ 2)
  pub digits : IsHex version × IsHex trace × IsHex parent × IsHex flags

both : (a b : Bool) → (a && b) ≡ true → (a ≡ true) × (b ≡ true)
both true true h = (refl, refl)
both true false h = cc
both false b h = cc

equal : (m n : ℕ) → (m == n) ≡ true → m ≡ n
equal m n h = ground arith

-- The conditions of the test, one by one.
tests :
    (s : String)
    → is_context s ≡ true
    → (size s ≡ 55)
      × (char_at s 2 ≡ 45)
      × (char_at s 35 ≡ 45)
      × (char_at s 52 ≡ 45)
      × (valid_hex (substr s 0 2) ≡ true)
      × (valid_hex (substr s 3 32) ≡ true)
      × (valid_hex (substr s 36 16) ≡ true)
      × (valid_hex (substr s 53 2) ≡ true)
unfolding is_context
tests s h =
    let (c7, flags) = both _ (valid_hex (substr s 53 2)) h in
    let (c6, parent) = both _ (valid_hex (substr s 36 16)) c7 in
    let (c5, trace) = both _ (valid_hex (substr s 3 32)) c6 in
    let (c4, version) =
      both (size s == 55 && char_at s 2 == 45 && char_at s 35 == 45 && char_at s 52 == 45)
        (valid_hex (substr s 0 2)) c5 in
    let (c3, third) =
      both (size s == 55 && char_at s 2 == 45 && char_at s 35 == 45) (char_at s 52 == 45) c4 in
    let (c2, second) = both (size s == 55 && char_at s 2 == 45) (char_at s 35 == 45) c3 in
    let (long, first) = both (size s == 55) (char_at s 2 == 45) c2 in
    (
      equal _ _ long,
      equal _ _ first,
      equal _ _ second,
      equal _ _ third,
      version,
      trace,
      parent,
      flags,
    )

-- A text that passes the test of `traceparent` has the form.
is_context-IsContext : (s : String) → is_context s ≡ true → IsContext s
is_context-IsContext s h =
    let (long, first, second, third, version, trace, parent, flags) = tests s h in
    let rest3 = drop 3 s in
    let rest36 = drop 36 s in
    let rest53 = drop 53 s in
    let end : take 2 rest53 ≡ rest53 = take-all 2 rest53 (omega (arith, size-drop 53 s, long)) in
    record {
      version = take 2 s;
      trace = take 32 rest3;
      parent = take 16 rest36;
      flags = take 2 rest53;
      form =
          cut 2 s first
          ∙ ap (λ t. take 2 s ++ ("-" ++ t))
              (cut 32 rest3 (char_at-drop 3 32 s ∙ second)
                ∙ ap (λ t. take 32 rest3 ++ ("-" ++ t))
                    (drop-drop 33 3 s
                      ∙ cut 16 rest36 (char_at-drop 36 16 s ∙ third)
                      ∙ ap (λ t. take 16 rest36 ++ ("-" ++ t)) (drop-drop 17 36 s ∙ sym end)));
      sizes = (
        size-take 2 s (omega (arith, long)),
        size-take 32 rest3 (omega (arith, size-drop 3 s, long)),
        size-take 16 rest36 (omega (arith, size-drop 36 s, long)),
        size-take 2 rest53 (omega (arith, size-drop 53 s, long)),
      );
      digits = (
        (valid_hex-IsHex _).0 version,
        (valid_hex-IsHex _).0 trace,
        (valid_hex-IsHex _).0 parent,
        (valid_hex-IsHex _).0 flags,
      );
    }

-- A trace context that the program makes has the form.
new_context-IsContext : (draws : Draws) → IsContext (new_context draws)
unfolding new_context
new_context-IsContext draws =
    let (long, hex) = random_hex-digits 32 draws.trace in
    let (short, hex') = random_hex-digits 16 draws.parent in
    record {
      version = "00";
      trace = random_hex 32 draws.trace;
      parent = random_hex 16 draws.parent;
      flags = "01";
      form =
          append_assoc "00" "-"
            (random_hex 32 draws.trace ++ ("-" ++ (random_hex 16 draws.parent ++ "-01")));
      sizes = (refl, long, short, refl);
      digits = ((valid_hex-IsHex "00").0 refl, hex, hex', (valid_hex-IsHex "01").0 refl);
    }

dash-at : (n : ℕ) (a t s : String) → s ≡ a ++ ("-" ++ t) → n ≡ size a → char_at s n ≡ 45
dash-at n a t s form long = rw (form, long) (dash a)
  where
    dash : (a : String) → char_at (a ++ ("-" ++ t)) (size a) ≡ 45
    dash [] = rw (nil-append, cons-append) refl
    dash (c ∷ a) = rw (cons-append c a ("-" ++ t)) (dash a)

hex-at :
    (n k : ℕ) (a b t s : String)
    → s ≡ a ++ (b ++ t)
    → n ≡ size a
    → k ≡ size b
    → IsHex b
    → valid_hex (substr s n k) ≡ true
hex-at n k a b t s form long short hex =
    ap valid_hex
      (ap (take k) (drop-at n a (b ++ t) s form long) ∙ take-at k b t (b ++ t) refl short)
    ∙ (valid_hex-IsHex b).1 hex

-- A text of the form passes the test of `traceparent`.
IsContext-is_context : (s : String) → IsContext s → is_context s ≡ true
unfolding is_context
IsContext-is_context s c =
    let (v2, t32, p16, f2) = c.sizes in
    let (vh, th, ph, fh) = c.digits in
    let v = c.version in
    let t = c.trace in
    let p = c.parent in
    let f = c.flags in
    let a2 = v ++ "-" in
    let a3 = a2 ++ t in
    let a4 = a3 ++ "-" in
    let a5 = a4 ++ p in
    let a6 = a5 ++ "-" in
    let n2 : 3 ≡ size a2 = omega (arith, size-append v "-", v2) in
    let n3 : 35 ≡ size a3 = omega (arith, size-append a2 t, n2, t32) in
    let n4 : 36 ≡ size a4 = omega (arith, size-append a3 "-", n3) in
    let n5 : 52 ≡ size a5 = omega (arith, size-append a4 p, n4, p16) in
    let n6 : 53 ≡ size a6 = omega (arith, size-append a5 "-", n5) in
    let e0 : s ≡ "" ++ (v ++ ("-" ++ (t ++ ("-" ++ (p ++ ("-" ++ f)))))) =
      c.form ∙ sym (nil-append _) in
    let e2 : s ≡ a2 ++ (t ++ ("-" ++ (p ++ ("-" ++ f)))) = c.form ∙ simp append_assoc in
    let e3 : s ≡ a3 ++ ("-" ++ (p ++ ("-" ++ f))) = c.form ∙ simp append_assoc in
    let e4 : s ≡ a4 ++ (p ++ ("-" ++ f)) = c.form ∙ simp append_assoc in
    let e5 : s ≡ a5 ++ ("-" ++ f) = c.form ∙ simp append_assoc in
    let e6 : s ≡ a6 ++ (f ++ "") = c.form ∙ simp (append_assoc, append-nil) in
    let long : size s ≡ 55 =
      ap size e6 ∙ omega (arith, size-append a6 (f ++ ""), size-append f "", n6, f2) in
    rw
      (
        long,
        dash-at 2 v (t ++ ("-" ++ (p ++ ("-" ++ f)))) s c.form (sym v2),
        dash-at 35 a3 (p ++ ("-" ++ f)) s e3 n3,
        dash-at 52 a5 f s e5 n5,
        hex-at 0 2 "" v ("-" ++ (t ++ ("-" ++ (p ++ ("-" ++ f))))) s e0 refl (sym v2) vh,
        hex-at 3 32 a2 t ("-" ++ (p ++ ("-" ++ f))) s e2 n2 (sym t32) th,
        hex-at 36 16 a4 p ("-" ++ f) s e4 n4 (sym p16) ph,
        hex-at 53 2 a6 f "" s e6 n6 (sym f2) fh,
      )
      refl

-- The trace context that `traceparent` settles on for a request without one has the form, and is the
-- one that the request came with where that has the form.
pub settled-IsContext :
    (supplied : String) (draws : Draws)
    → let settled = if is_context supplied then supplied else new_context draws in
      (IsContext supplied → settled ≡ supplied) × IsContext settled
settled-IsContext supplied draws = elim (Bool-cases (is_context supplied)) [
  | inl e ↦ rw e (λ c. refl, is_context-IsContext supplied e)
  | inr e ↦
      rw e (
        λ c. absurd (let test = IsContext-is_context supplied c in cc),
        new_context-IsContext draws,
      )
]
