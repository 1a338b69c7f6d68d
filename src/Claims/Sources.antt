-- ===== src/Claims/Sources.antt =====
-- The amounts that the sources of the evidence give, and the amount that an action may use.
use back_office_fintech.Common.{
  String, true, Option, none, some, ◌++◌, ◌≡◌, ◌≢◌, ◌↔◌, ◌⊎◌, inl, inr, refl, arith,
}
use back_office_fintech.Common.Int.{ℤ, eqb_ℤ, eqb_ℤ_iff}
use back_office_fintech.Schemas.Evidence.{EvidenceBundle}
use back_office_fintech.Claims.Amounts.{
  SourcedAmount, bank_amount, check_system_amount_consistency, consistent, get_trusted_amount,
  ledger_amount, one_or_none, or_amount, system_amounts, transaction_amount,
}

-- A source gives an amount.
abbrev pub Gives : Option SourcedAmount → ℤ → Type 0
Gives source n = (name : String) × (source ≡ some (n, name))

-- One of three sources gives it.
abbrev pub OneGives :
    Option SourcedAmount → Option SourcedAmount → Option SourcedAmount → ℤ → Type 0
OneGives a b c n = Gives a n ⊎ (Gives b n ⊎ Gives c n)

abbrev pub Reports : EvidenceBundle → ℤ → Type 0
Reports e n =
    OneGives (ledger_amount e.wallet_ledger) (transaction_amount e.transaction)
      (bank_amount e.reconciliation_status) n

agree :
    (a b c : Option SourcedAmount) (m n : ℤ)
    → consistent (one_or_none a ++ one_or_none b ++ one_or_none c) ≡ true
    → OneGives a b c m
    → OneGives a b c n
    → m ≡ n
agree none none none m n h p q = ground arith
agree (some (x, s)) none none m n h p q = ground arith
agree none (some (x, s)) none m n h p q = ground arith
agree none none (some (x, s)) m n h p q = ground arith
agree (some (x, s)) (some (y, t)) none m n h p q = ground (arith, eqb_ℤ_iff y x)
agree (some (x, s)) none (some (z, u)) m n h p q = ground (arith, eqb_ℤ_iff z x)
agree none (some (y, t)) (some (z, u)) m n h p q = ground (arith, eqb_ℤ_iff z y)
agree (some (x, s)) (some (y, t)) (some (z, u)) m n h p q =
    ground (arith, eqb_ℤ_iff y x, eqb_ℤ_iff z x)

eqb_ℤ_of : (m n : ℤ) → m ≡ n → eqb_ℤ m n ≡ true
eqb_ℤ_of m n h = (eqb_ℤ_iff m n).1 h

consistent_of :
    (a b c : Option SourcedAmount)
    → ((m n : ℤ) → OneGives a b c m → OneGives a b c n → m ≡ n)
    → consistent (one_or_none a ++ one_or_none b ++ one_or_none c) ≡ true
consistent_of none none none h = refl
consistent_of (some (x, s)) none none h = refl
consistent_of none (some (x, s)) none h = refl
consistent_of none none (some (x, s)) h = refl
consistent_of (some (x, s)) (some (y, t)) none h =
    rw (eqb_ℤ_of x x refl, eqb_ℤ_of y x (h y x (inr (inl (t, refl))) (inl (s, refl)))) refl
consistent_of (some (x, s)) none (some (z, u)) h =
    rw (eqb_ℤ_of x x refl, eqb_ℤ_of z x (h z x (inr (inr (u, refl))) (inl (s, refl)))) refl
consistent_of none (some (y, t)) (some (z, u)) h =
    rw (eqb_ℤ_of y y refl, eqb_ℤ_of z y (h z y (inr (inr (u, refl))) (inr (inl (t, refl))))) refl
consistent_of (some (x, s)) (some (y, t)) (some (z, u)) h =
    rw
      (
        eqb_ℤ_of x x refl,
        eqb_ℤ_of y x (h y x (inr (inl (t, refl))) (inl (s, refl))),
        eqb_ℤ_of z x (h z x (inr (inr (u, refl))) (inl (s, refl))),
      )
      refl

-- The check passes exactly when all amounts that the ledger, the transaction and the bank report are
-- equal.
pub check_system_amount_consistency_iff :
    (e : EvidenceBundle)
    → (check_system_amount_consistency e ≡ true) ↔ ((m n : ℤ) → Reports e m → Reports e n → m ≡ n)
unfolding check_system_amount_consistency system_amounts
check_system_amount_consistency_iff e = (
  λ h m n p q.
      agree (ledger_amount e.wallet_ledger) (transaction_amount e.transaction)
        (bank_amount e.reconciliation_status) m n h p q,
  λ h.
      consistent_of (ledger_amount e.wallet_ledger) (transaction_amount e.transaction)
        (bank_amount e.reconciliation_status) h,
)

first_gives :
    (a b c : Option SourcedAmount) (n : ℤ) (name : String)
    → or_amount a (or_amount b c) ≡ some (n, name)
    → OneGives a b c n
first_gives (some (x, s)) b c n name h = inl (name, h)
first_gives none (some (y, t)) c n name h = inr (inl (name, h))
first_gives none none c n name h = inr (inr (name, h))

one_given :
    (a b c : Option SourcedAmount) (n : ℤ) → OneGives a b c n → or_amount a (or_amount b c) ≢ none
one_given (some x) b c n h q = ground arith
one_given none (some y) c n h q = ground arith
one_given none none (some z) n h q = ground arith
one_given none none none n (inl h) q = ground arith
one_given none none none n (inr (inl h)) q = ground arith
one_given none none none n (inr (inr h)) q = ground arith

-- The trusted amount is one that a source reports.
pub get_trusted_amount-Reports :
    (e : EvidenceBundle) (n : ℤ) (name : String)
    → get_trusted_amount e ≡ some (n, name)
    → Reports e n
unfolding get_trusted_amount
get_trusted_amount-Reports e n name h =
    first_gives (ledger_amount e.wallet_ledger) (transaction_amount e.transaction)
      (bank_amount e.reconciliation_status) n name h

-- Where a source reports an amount, there is a trusted one.
pub get_trusted_amount-some :
    (e : EvidenceBundle) (n : ℤ) → Reports e n → get_trusted_amount e ≢ none
unfolding get_trusted_amount
get_trusted_amount-some e n r =
    one_given (ledger_amount e.wallet_ledger) (transaction_amount e.transaction)
      (bank_amount e.reconciliation_status) n r
