-- ===== src/Phase/Files/Laws.antt =====
-- Which files count as a plan and which as a summary.
use aegis_workers.Base.{
  ℕ, ◌≤◌, ◌≡◌, ap, All, keep-All, true, false, List, [], ◌∷◌, Text, text_eq, text_eq_iff, keep,
  arith, length, Bool-cases, inl, inr,
}
use aegis_workers.Phase.Files.{ends_with, is_kind, plan_kind, summary_kind, get_phase_file_stats}

ends_with_refl : (s : Text) → ends_with s s ≡ true
unfolding ends_with
ends_with_refl [] = ground arith
ends_with_refl (c ∷ s) = ground (arith, text_eq_iff (c ∷ s) (c ∷ s))

length-ends_with : (s t : Text) → ends_with s t ≡ true → length t ≤ length s
unfolding ends_with
length-ends_with [] t h = ground (arith, text_eq_iff [] t)
length-ends_with (c ∷ s) t h = ground (arith, text_eq_iff (c ∷ s) t, length-ends_with s t)

text_eq-length : (s t : Text) → text_eq s t ≡ true → length s ≡ length t
text_eq-length s t h = ap length ((text_eq_iff s t).0 h)

-- Of two ends of a text the shorter one is an end of the longer.
ends_with-ends :
    (f s t : Text)
    → ends_with f s ≡ true
    → ends_with f t ≡ true
    → length s ≤ length t
    → ends_with t s ≡ true
unfolding ends_with
ends_with-ends [] s t hs ht le =
    rw (← (text_eq_iff [] s).0 hs, ← (text_eq_iff [] t).0 ht) (ground arith)
ends_with-ends (c ∷ f) s t hs ht le = elim (Bool-cases (text_eq (c ∷ f) t)) [
  | inl e ↦ rw (← (text_eq_iff (c ∷ f) t).0 e) hs
  | inr n ↦ elim (Bool-cases (text_eq (c ∷ f) s)) [
    | inl e ↦ ground (arith, text_eq-length (c ∷ f) s, length-ends_with f t)
    | inr m ↦ ends_with-ends f s t (rw m at hs) (rw n at ht) le
  ]
]

ends_with_tail : (f kind : Text) (c : ℕ) → ends_with f (c ∷ kind) ≡ true → ends_with f kind ≡ true
unfolding ends_with
ends_with_tail [] kind c h = ground (arith, text_eq_iff [] (c ∷ kind))
ends_with_tail (d ∷ f) kind c h = elim (Bool-cases (text_eq (d ∷ f) (c ∷ kind))) [
  | inl e ↦ ground (arith, text_eq_iff f kind, ends_with_refl f)
  | inr n ↦ ground (arith, ends_with_tail f kind c)
]

ends_with-is_kind : (kind f : Text) → is_kind kind f ≡ true → ends_with f kind ≡ true
unfolding is_kind
ends_with-is_kind kind f h = elim (Bool-cases (text_eq f kind)) [
  | inl e ↦ rw ((text_eq_iff f kind).0 e) (ends_with_refl kind)
  | inr n ↦ ends_with_tail f kind b'-' (ground arith)
]

All-map {ℓ κ μ} :
    {A : Type ℓ} {P : A → Type κ} {Q : A → Type μ}
    → ((a : A) → P a → Q a)
    → (xs : List A) → All P xs
    → All Q xs
All-map f [] h = tt
All-map f (x ∷ xs) (h, k) = (f x h, All-map f xs k)

plan_no_end {ℓ} : {A : Type ℓ} → ends_with summary_kind plan_kind ≡ true → A
unfolding ends_with
plan_no_end h = cc

is_kind-plan : (f : Text) → is_kind plan_kind f ≡ true → is_kind summary_kind f ≡ false
is_kind-plan f plan = elim (Bool-cases (is_kind summary_kind f)) [
  | inl both ↦ plan_no_end (
      ends_with-ends f plan_kind summary_kind (ends_with-is_kind plan_kind f plan)
        (ends_with-is_kind summary_kind f both) (ground arith))
  | inr single ↦ single
]

-- No file of a directory counts both as a plan and as a summary.
pub get_phase_file_stats-disjoint :
    (files : List Text)
    → All (λ f. is_kind summary_kind f ≡ false) (get_phase_file_stats files).plans
unfolding get_phase_file_stats
get_phase_file_stats-disjoint files =
    All-map is_kind-plan (keep (is_kind plan_kind) files) (keep-All (is_kind plan_kind) files)
