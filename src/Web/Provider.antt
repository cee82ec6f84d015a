-- ===== src/Web/Provider.antt =====
-- TenderizeProvider of src/contexts/tenderize.tsx: the state of the pool that the components see.
use marinade_tenderize_from.Prelude.{◌≡◌, refl, Option, none, some, List, [], ◌∷◌, All}
use marinade_tenderize_from.Effect.{ok, err, pure}
use marinade_tenderize_from.Web3.{Web3, AccountInfo}
use marinade_tenderize_from.Pool.Client.{Program, Session}
use marinade_tenderize_from.Pool.Reading.{state_of}
use marinade_tenderize_from.Web.Layout.{Libraries}
use marinade_tenderize_from.Web.Decode.{Decoders, DecoderLaws, ParsedTenderize, tenderize_parser}
use marinade_tenderize_from.Web.Agreement.{as_found, IsWhole, tenderize_parser-state_of}

-- What reaches the provider: the reply to getAccountInfo, or its failure, and changes.
pub data ProviderEvent : Type 0 where
  replied : (account : Option AccountInfo) → ProviderEvent
  failed : ProviderEvent
  changed : (account : AccountInfo) → ProviderEvent

module _ (l : Libraries) {K : Type 0} (r : Decoders l K) (stake_pool_id : K) where
  -- setTenderizeAccount(TenderizeParser(STAKE_POOL_ID, acc!)); a parser that throws sets nothing.
  unfoldable pub set_tenderize_account :
      Option AccountInfo → Option (ParsedTenderize l K) → Option (ParsedTenderize l K)
  set_tenderize_account account tenderize_account =
      elim (tenderize_parser l r stake_pool_id account) [
        | ok parsed ↦ parsed
        | err e ↦ tenderize_account
      ]

  unfoldable pub provider_step :
      ProviderEvent → Option (ParsedTenderize l K) → Option (ParsedTenderize l K)
  unfolding set_tenderize_account
  provider_step (replied account) tenderize_account =
      set_tenderize_account account tenderize_account
  provider_step failed tenderize_account = tenderize_account
  provider_step (changed account) tenderize_account =
      set_tenderize_account (some account) tenderize_account

  unfoldable pub provider_run :
      List ProviderEvent → Option (ParsedTenderize l K) → Option (ParsedTenderize l K)
  unfolding provider_step
  provider_run [] tenderize_account = tenderize_account
  provider_run (e ∷ es) tenderize_account = provider_run es (provider_step e tenderize_account)

-- The account that reached the provider last.
unfoldable pub arrived : ProviderEvent → Option AccountInfo → Option AccountInfo
arrived (replied account) before = account
arrived failed before = before
arrived (changed account) before = some account

unfoldable pub last_arrived : List ProviderEvent → Option AccountInfo → Option AccountInfo
unfolding arrived
last_arrived [] before = before
last_arrived (e ∷ es) before = last_arrived es (arrived e before)

module _ (w : Web3) (l : Libraries) (r : Decoders l w.PublicKey) (laws : DecoderLaws r)
    (same_key : (bs : List _) → r.new_public_key bs ≡ w.new_public_key bs) where
  abbrev pub BringsWhole : ProviderEvent → Type 0
  BringsWhole (replied account) = IsWhole w l account
  BringsWhole failed = Unit
  BringsWhole (changed account) = IsWhole w l (some account)

  module _ (prog : Program w) (pool : w.PublicKey) (s : Session w) where
    -- The provider shows what the client reads of this account.
    abbrev Shows : Option AccountInfo → Option (ParsedTenderize l w.PublicKey) → Type 0
    Shows account shown = state_of w prog account s ≡ (ok (as_found w l shown), s)

    set_tenderize_account-Shows :
        (account : Option AccountInfo) (shown : Option (ParsedTenderize l w.PublicKey))
        → IsWhole w l account
        → Shows account (set_tenderize_account l r pool account shown)
    unfolding set_tenderize_account
    set_tenderize_account-Shows account shown h =
        let (parsed, decoded, read, of_account) =
          tenderize_parser-state_of w l r laws same_key prog pool account s h in
        rw (set_tenderize_account, decoded) read

    provider_step-Shows :
        (e : ProviderEvent) (account : Option AccountInfo)
        (shown : Option (ParsedTenderize l w.PublicKey))
        → BringsWhole e
        → Shows account shown
        → Shows (arrived e account) (provider_step l r pool e shown)
    unfolding provider_step arrived
    provider_step-Shows (replied account') account shown h k =
        set_tenderize_account-Shows account' shown h
    provider_step-Shows failed account shown h k = k
    provider_step-Shows (changed account') account shown h k =
        set_tenderize_account-Shows (some account') shown h

    provider_run-Shows :
        (es : List ProviderEvent) (account : Option AccountInfo)
        (shown : Option (ParsedTenderize l w.PublicKey))
        → All BringsWhole es
        → Shows account shown
        → Shows (last_arrived es account) (provider_run l r pool es shown)
    unfolding provider_run last_arrived
    provider_run-Shows [] account shown h k = k
    provider_run-Shows (e ∷ es) account shown (h, hs) k =
        provider_run-Shows es _ _ hs (provider_step-Shows e account shown h k)

    -- Under the conditions on the libraries and the accounts that come in: whatever the order of the
    -- replies, failures and changes, the provider shows what parseState of the client reads of the
    -- account that came in last.
    pub provider_run-state_of :
        (es : List ProviderEvent)
        → All BringsWhole es
        → state_of w prog (last_arrived es none) s
          ≡ (ok (as_found w l (provider_run l r pool es none)), s)
    unfolding state_of pure
    provider_run-state_of es h = provider_run-Shows es none none h refl
