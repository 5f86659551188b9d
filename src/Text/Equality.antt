-- ===== src/Text/Equality.antt =====
-- The Boolean comparisons of texts decide equality.
use pg_mnestic.Prelude.{Option, none, some, ◌≡◌, refl, ◌≢◌, ◌↔◌, true, false, [], ◌∷◌, ap, arith}
use pg_mnestic.Text.{Text, text_eq, opt_text_eq}

pub text_eq_self : (s : Text) → text_eq s s ≡ true
unfolding text_eq
text_eq_self [] = refl
text_eq_self (c ∷ s) = ground (arith, text_eq_self s)

pub text_eq_sound : (s t : Text) → text_eq s t ≡ true → s ≡ t
unfolding text_eq
text_eq_sound [] [] h = refl
text_eq_sound [] (d ∷ t) h = ground arith
text_eq_sound (c ∷ s) [] h = ground arith
text_eq_sound (c ∷ s) (d ∷ t) h = ground (arith, text_eq_sound s t)

pub text_eq_iff : (s t : Text) → (text_eq s t ≡ true) ↔ (s ≡ t)
text_eq_iff s t = (text_eq_sound s t, λ e. ground (arith, text_eq_self s))

pub text_eq-ne : (s t : Text) → text_eq s t ≡ false → s ≢ t
text_eq-ne s t h e = ground (arith, text_eq_self s)

pub opt_text_eq_self : (o : Option Text) → opt_text_eq o o ≡ true
unfolding opt_text_eq
opt_text_eq_self none = refl
opt_text_eq_self (some s) = text_eq_self s

pub opt_text_eq_sound : (o p : Option Text) → opt_text_eq o p ≡ true → o ≡ p
unfolding opt_text_eq
opt_text_eq_sound none none h = refl
opt_text_eq_sound none (some t) h = ground arith
opt_text_eq_sound (some s) none h = ground arith
opt_text_eq_sound (some s) (some t) h = ap some (text_eq_sound s t h)

pub opt_text_eq-ne : (o p : Option Text) → opt_text_eq o p ≡ false → o ≢ p
opt_text_eq-ne o p h e = ground (arith, opt_text_eq_self o)
