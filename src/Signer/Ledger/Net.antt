-- ===== src/Signer/Ledger/Net.antt =====
-- The net transfers of services/restricted-signer/src/ledger.ts are the sums of an account's entries.
use koven.Prelude.{
  ℤ, pos, ◌+ℤ◌, ◌≡◌, refl, sym, ap, ◌∙◌, String, Option, none, some, true, false, List, [], ◌∷◌,
  ◌==◌, if◌then◌else◌, arith, Bool-cases, inl, inr, eq_iff, eq_refl,
}
use koven.Exec.{ok}
use koven.Signer.Ledger.{MirrorTransfer, Net, net_of, add_to, sum_transfers}

+ℤ-assoc : (a b c : ℤ) → (a +ℤ b) +ℤ c ≡ a +ℤ (b +ℤ c)
+ℤ-assoc a b c = ground arith

pub zero_+ℤ : (a : ℤ) → pos 0 +ℤ a ≡ a
zero_+ℤ a = ground arith

+ℤ_zero : (a : ℤ) → a +ℤ pos 0 ≡ a
+ℤ_zero a = ground arith

-- What a transfer adds for an account.
abbrev pub part : String → MirrorTransfer → ℤ
part a t = if t.account == a then t.amount else pos 0

-- The sum of an account's entries.
abbrev pub total : String → List (Option MirrorTransfer) → ℤ
total a [] = pos 0
total a (none ∷ ts) = total a ts
total a (some t ∷ ts) = part a t +ℤ total a ts

-- Two texts that are told apart are not both a third.
apart : (s t a : String) → s == t ≡ false → s == a ≡ true → t == a ≡ false
apart s t a d e = ground (arith, eq_iff s t, eq_iff s a, eq_iff t a, eq_refl a)

net_of-add_to :
    (a : String) (t : MirrorTransfer) (net : Net)
    → net_of a (add_to t net) ≡ net_of a net +ℤ part a t
net_of-add_to a t [] = sym (zero_+ℤ (part a t))
net_of-add_to a t (e ∷ es) = elim (Bool-cases (e.account == t.account)) [
  | inl same ↦
      let eq : e.account ≡ t.account = (eq_iff e.account t.account).0 same in
      elim (Bool-cases (t.account == a)) [
        | inl hit ↦ rw (eq, eq_refl t.account, hit) refl
        | inr miss ↦ rw (eq, eq_refl t.account, miss) (sym (+ℤ_zero (net_of a es)))
      ]
  | inr other ↦ elim (Bool-cases (e.account == a)) [
    | inl hit ↦ rw (other, hit, apart e.account t.account a other hit) (sym (+ℤ_zero e.amount))
    | inr miss ↦ rw (other, miss) (net_of-add_to a t es)
  ]
]

-- The map that the loop builds has for every account the sum of what was there and of its entries.
pub net_of-sum_transfers :
    (a : String) (ts : List (Option MirrorTransfer)) (net net' : Net)
    → sum_transfers ts net tt ≡ (ok net', tt)
    → net_of a net' ≡ net_of a net +ℤ total a ts
unfolding sum_transfers
net_of-sum_transfers a [] net net' h =
    let same : net ≡ net' = ground arith in rw same (sym (+ℤ_zero (net_of a net')))
net_of-sum_transfers a (none ∷ ts) net net' h = absurd (ground arith)
net_of-sum_transfers a (some t ∷ ts) net net' h =
    net_of-sum_transfers a ts (add_to t net) net' h
    ∙ ap (λ x. x +ℤ total a ts) (net_of-add_to a t net)
    ∙ +ℤ-assoc (net_of a net) (part a t) (total a ts)
