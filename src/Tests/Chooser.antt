-- ===== src/Tests/Chooser.antt =====
-- The account chooser on two accounts.
use gateway_platform.Gateway.Chooser.Buckets.Replace.{replace_bucket_isolates}
use gateway_platform.Gateway.Chooser.Reachable.{Reach-Inv, Reach, next, start, publish}
use gateway_platform.Gateway.Chooser.Buckets.Ownership.{Inv}
use gateway_platform.Gateway.Chooser.Buckets.{
  replace_bucket, install_all, install_step, install, clear_changed, bucket_at, drop_accounts,
}
use gateway_platform.Gateway.Chooser.Select.Order.{SameMap, acquire_order}
use gateway_platform.Base.Sort.{sort_strings}
use gateway_platform.Gateway.Chooser.Select.Refusal.{HeldByQuota, acquire_refused}
use gateway_platform.Gateway.Chooser.Select.Eligible.{judge_iff}
use gateway_platform.Base.Map.{lookup, Distinct}
use gateway_platform.Gateway.Chooser.Select.Outcome.{
  LeaseOf, acquire-LeaseOf, acquire_total, Candidate,
}
use gateway_platform.Gateway.Chooser.Select.{
  acquire_preferring, leased, make_lease, judge, is_stale, refused, quota_exhausted, contains,
  platform_differs, credential_expired, supports, is_cooling, egress_blocked, has_quota,
}
use gateway_platform.Gateway.Chooser.{Chooser, new_chooser, bucket_key}
use gateway_platform.Contracts.Types.{
  Credential, UpstreamProfile, Account, Criteria, Lease, unset, failover,
}
use gateway_platform.Base.{
  ◌≡◌, refl, true, false, some, none, inl, inr, [], ◌∷◌, List, nat_eq, list_eq, list_beq, ◌↔◌, ◌==◌,
  ◌≢◌, ==→eq, Bool-cases, ap, if◌then◌else◌, false_iff,
}
use gateway_platform.Base.Text.{Text, codes, text_beq_iff}
use gateway_platform.Base.Int.{pos}

abbrev credential : Credential
credential = record {
  kind = codes "oauth";
  access_token = codes "token";
  proxy = [];
  metadata = [];
  expires_at = 0;
  version = pos 1;
}

abbrev profile : UpstreamProfile
profile = record {
  base_url = codes "https://up";
  proxy = codes "p";
  protocol = [];
  inference_path = [];
  tls_fingerprint = [];
  user_agent = [];
  extra_headers = [];
  metadata = [];
  ws = false;
}

abbrev pub account : Text → Account
account id = record {
  id = id;
  provider = codes "kiro";
  platform = codes "p";
  group = codes "g";
  credential = credential;
  profile = profile;
  limits = record {
    max_concurrency = pos 0;
    rpm = pos 0;
    sticky_ttl = pos 0;
    degrade_policy = unset;
  };
  status = codes "active";
  fence_epoch = pos 1;
  quota = record { items = [] };
  capabilities = [];
  excluded_models = [];
  usage_integrity = failover;
}

-- An account whose quota is used up.
abbrev spent : Text → Account
spent id = record (account id) {
  quota = record {
    items =
        record {
          scope = codes "account";
          model = [];
          unit = codes "requests";
          limit = some (pos 10);
          remaining = some (pos 0);
          limit_exact = none;
          remaining_exact = none;
          remaining_fraction = none;
          precision = none;
          reset_at = none;
        }
        ∷ [];
  };
}

abbrev pub a : Text
a = codes "a"

abbrev pub b : Text
b = codes "b"

abbrev pub request : Criteria
request = record { platform = codes "p"; model = []; group = codes "g"; session_key = [] }

abbrev pub two : Chooser
two = record new_chooser { accounts = (b, account b) ∷ (a, account a) ∷ [] }

abbrev used_up : Chooser
used_up = record new_chooser { accounts = (a, spent a) ∷ [] }

two-Distinct : Distinct two.accounts
unfolding new_chooser lookup list_beq
two-Distinct = (refl, (refl, tt))

abbrev ordered : List (Text × Account)
ordered = (a, account a) ∷ (b, account b) ∷ []

least_is_leased :
    acquire_preferring (λ n. n) 5 two request [] [] ≡ leased (make_lease (λ n. n) 5 (account a))
unfolding acquire_preferring sort_strings is_stale platform_differs list_beq credential_expired
    supports is_cooling egress_blocked has_quota lookup new_chooser
least_is_leased = refl

preferred_is_leased :
    acquire_preferring (λ n. n) 5 two request b [] ≡ leased (make_lease (λ n. n) 5 (account b))
unfolding acquire_preferring sort_strings is_stale platform_differs list_beq credential_expired
    supports is_cooling egress_blocked has_quota lookup new_chooser
preferred_is_leased = refl

b-Candidate : Candidate 5 two request [] b
unfolding judge contains is_stale platform_differs list_beq credential_expired supports is_cooling
    egress_blocked has_quota lookup new_chooser
b-Candidate = (account b, refl, (judge_iff two request [] 5 b (account b)).0 refl)

acquire-LeaseOf_example : LeaseOf 5 two request [] b (λ n. n) (make_lease (λ n. n) 5 (account b))
acquire-LeaseOf_example =
    acquire-LeaseOf 5 two request [] b (λ n. n) (make_lease (λ n. n) 5 (account b)) two-Distinct
      preferred_is_leased

acquire_total_example : (l : Lease) × (acquire_preferring (λ n. n) 5 two request [] [] ≡ leased l)
acquire_total_example = acquire_total 5 two request [] [] (λ n. n) b two-Distinct b-Candidate

used_up-Distinct : Distinct used_up.accounts
unfolding new_chooser lookup list_beq
used_up-Distinct = (refl, tt)

ordered-Distinct : Distinct ordered
unfolding lookup list_beq
ordered-Distinct = (refl, (refl, tt))

acquire_refused_example :
    (acquire_preferring (λ n. n) 5 used_up request [] [] ≡ refused quota_exhausted) ↔ (
      ((id : Text) → ¬ Candidate 5 used_up request [] id)
      × HeldByQuota (λ n. n) 5 used_up request [] [])
acquire_refused_example = acquire_refused (λ n. n) 5 used_up request [] [] used_up-Distinct

-- The two lists hold the same accounts.
two-SameMap : SameMap two.accounts ordered
unfolding lookup new_chooser list_beq
two-SameMap k = elim (Bool-cases (a == k)) [
  | inl t ↦ rw t (ap (λ x. if x then some (account b) else some (account a)) (b_differs k t))
  | inr f ↦ rw f refl
]
  where
    b_differs : (k : Text) → (a == k) ≡ true → (b == k) ≡ false
    b_differs k t = rw (← ==→eq a k t) refl

acquire_order_example :
    acquire_preferring (λ n. n) 5 (record two { accounts = ordered }) request [] []
    ≡ acquire_preferring (λ n. n) 5 two request [] []
acquire_order_example =
    acquire_order (λ n. n) 5 two ordered request [] [] two-Distinct ordered-Distinct two-SameMap

-- One bucket is published, and another after it.
abbrev published : Chooser
published = replace_bucket new_chooser (codes "p") (codes "g") (account a ∷ []) (pos 1) 0

abbrev other : Account
other = record (account b) { group = codes "h" }

published-Reach : Reach published
published-Reach = next start (publish (codes "p") (codes "g") (account a ∷ []) (pos 1) 0)

Reach-Inv_example : Inv published
Reach-Inv_example = Reach-Inv published-Reach

a_owned : published.owner a ≡ some (bucket_key (codes "p") (codes "g"))
unfolding replace_bucket install_all install_step install clear_changed bucket_at drop_accounts
    lookup list_beq new_chooser bucket_key
a_owned = refl

keys_differ : bucket_key (codes "p") (codes "g") ≢ bucket_key (codes "p") (codes "h")
unfolding bucket_key list_beq
keys_differ =
    (false_iff _
        (text_beq_iff (bucket_key (codes "p") (codes "g")) (bucket_key (codes "p") (codes "h")))).0
      refl

replace_bucket_isolates_example :
    let after =
      replace_bucket published (codes "p") (codes "h") (other ∷ account a ∷ []) (pos 1) 0 in
    (after.owner a ≡ some (bucket_key (codes "p") (codes "g")))
    × (lookup a after.accounts ≡ lookup a published.accounts)
    × (lookup (bucket_key (codes "p") (codes "g")) after.buckets
        ≡ lookup (bucket_key (codes "p") (codes "g")) published.buckets)
replace_bucket_isolates_example =
    replace_bucket_isolates published (codes "p") (codes "h") (other ∷ account a ∷ []) (pos 1) 0 a
      (bucket_key (codes "p") (codes "g")) (Reach-Inv published-Reach) keys_differ a_owned
