-- ===== src/Cli/Deposits.antt =====
-- What `run` of experiment/cli.ts brings the reserve to before it carries out a command.
use marinade_tenderize_from.Prelude.{
  ℕ, pos, ◌+◌, ◌-◌, ◌*◌, ◌≡◌, ◌≤◌, ◌<◌, refl, ◌⊎◌, inl, inr, Option, none, some, arith, ltb, ltb→lt,
  ltb→le, Bool-cases,
}
use marinade_tenderize_from.Effect.{
  Result, ok, err, web, not_enough_funds, pure, throw, throw_if, ◌>>=◌,
}
use marinade_tenderize_from.Web3.{Web3, AccountInfo}
use marinade_tenderize_from.Pool.Client.{
  Program, Session, get_reserve_address, account_info, rent_exemption,
}
use marinade_tenderize_from.Pool.Sending.{deposit}
use marinade_tenderize_from.Cli.Steps.{
  Args, Host, lamports_per_sol, lamports_of, max_of, lacking, deposit_lacking, top_up,
}

-- The greater one of two numbers
abbrev pub IsGreater : ℕ → ℕ → ℕ → Type 0
IsGreater a b n = (a ≤ n) × (b ≤ n) × ((n ≡ a) ⊎ (n ≡ b))

module _ (w : Web3) (prog : Program w) (host : Host w) where
  lacking-cases :
      (r : Option AccountInfo) (least : ℕ)
      → ((lacking w prog host r least ≡ none) × (least ≤ lamports_of w prog host r))
        ⊎ ((amount : ℕ) × (lacking w prog host r least ≡ some amount)
            × (lamports_of w prog host r + amount ≡ least))
  unfolding lacking lamports_of
  lacking-cases none least = inr (least, refl, omega arith)
  lacking-cases (some a) least = elim (Bool-cases (ltb a.lamports least)) [
    | inl e ↦
        let h : a.lamports < least = ltb→lt a.lamports least e in
        inr (least - a.lamports, rw e refl, omega (arith, h))
    | inr e ↦ inl (rw e refl, ltb→le a.lamports least e)
  ]

  max_of-IsGreater : (a b : ℕ) → IsGreater a b (max_of w prog host a b)
  unfolding max_of
  max_of-IsGreater a b = elim (Bool-cases (ltb a b)) [
    | inl e ↦ let h : a < b = ltb→lt a b e in rw e (omega (arith, h), omega arith, inr refl)
    | inr e ↦ let h : b ≤ a = ltb→le a b e in rw e (omega arith, h, inl refl)
  ]

  -- What comes of a reserve and of the payer's account: the reserve has the least amount, and the
  -- session stays; or an amount and what it has make the least amount, and the payer has less than
  -- the amount and an error is thrown, or has as much and deposits the amount.
  abbrev pub IsToppedUp :
      Option AccountInfo
      → Option AccountInfo
      → ℕ
      → Session w
      → Session w
      → Result (Unit {0}) × Session w
      → Type 0
  IsToppedUp reserve payer least s s' outcome =
      ((least ≤ lamports_of w prog host reserve) × (outcome ≡ (ok tt, s)))
      ⊎ ((amount : ℕ) × (lamports_of w prog host reserve + amount ≡ least)
          × (((lamports_of w prog host payer < amount)
                × (outcome ≡ (err (web not_enough_funds), s')))
              ⊎ ((amount ≤ lamports_of w prog host payer)
                  × (outcome
                      ≡ deposit w prog
                          (record {
                            user_source = prog.payer_account;
                            amount = pos amount;
                            user_token = prog.owners_fee;
                          })
                          s'))))

  -- Before a command, where the reserve, the two rents and the payer's account can be read, there is a
  -- least amount, the greater one of the SOL that the options ask for and of the two rents together:
  -- `run` leaves a reserve that has it as it is, or deposits just what the reserve lacks, from the
  -- payer; it throws if the payer has less than that.
  pub top_up-fills :
      (args : Args w.PublicKey) (s s₁ s₂ s₃ s₄ : Session w) (reserve payer : Option AccountInfo)
      (for_nothing for_credits : ℕ)
      → account_info w (get_reserve_address w prog) s ≡ (ok reserve, s₁)
      → rent_exemption w 0 s₁ ≡ (ok for_nothing, s₂)
      → rent_exemption w 10000 s₂ ≡ (ok for_credits, s₃)
      → account_info w prog.payer_account s₃ ≡ (ok payer, s₄)
      → (least : ℕ) × IsGreater (1000000000 * args.min_reserve) (for_nothing + for_credits) least
        × IsToppedUp reserve payer least s₃ s₄ (top_up w prog host args s)
  unfolding top_up deposit_lacking throw_if pure throw ◌>>=◌
  top_up-fills args s s₁ s₂ s₃ s₄ reserve payer for_nothing for_credits read_reserve rent rent'
        read_payer =
      let asked : ℕ = lamports_per_sol * args.min_reserve in
      let least : ℕ = max_of w prog host asked (for_nothing + for_credits) in
      (
        least,
        max_of-IsGreater asked (for_nothing + for_credits),
        elim (lacking-cases reserve least) [
          | inl (e, h) ↦ inl (h, rw (top_up, read_reserve, rent, rent', e) refl)
          | inr (amount, e, fills) ↦ inr (
            amount,
            fills,
            elim (Bool-cases (ltb (lamports_of w prog host payer) amount)) [
              | inl short ↦ inl (
                ltb→lt _ amount short,
                rw (top_up, read_reserve, rent, rent', e, deposit_lacking, read_payer, short) refl,
              )
              | inr enough ↦ inr (
                ltb→le _ amount enough,
                rw (top_up, read_reserve, rent, rent', e, deposit_lacking, read_payer, enough) refl,
              )
            ],
          )
        ],
      )
