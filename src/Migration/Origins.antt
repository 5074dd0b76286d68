-- ===== src/Migration/Origins.antt =====
-- internal/migration/newapi/plan.go: what the records of a plan say of the sources that they stem from.
use gateway_platform.Migration.Conversion.{
  Library, source_name, imported_tenant_id, imported_tenant_token_id,
}
use gateway_platform.Migration.Sources.{channel_groups, quota_raw, group_raw, channel_group_raw}
use gateway_platform.Migration.Tokens.{token_raw}
use gateway_platform.Migration.Users.{user_raw}
use gateway_platform.Migration.Types.{
  Plan, MigrationRecord, JsonMap, SourceUser, SourceToken, SourceQuota, SourceGroup, SourceChannel,
}
use gateway_platform.Base.Text.{Text, codes}
use gateway_platform.Base.{
  List, [], ◌∷◌, ◌++◌, ◌+◌, ◌≡◌, ℕ, Bool, true, false, map, any, ◌==◌, if◌then◌else◌, length, arith,
  refl, sym, ap, ◌∙◌, subst, nat_eq, list_eq,
}
use mathlib.Core.List.{append_assoc, append-nil}

-- A source that is read: the record's id, kind and raw summary, the target where it is imported, and
-- whether it may be rejected.
pub record Origin : Type 0 where
  pub source_id : Text
  pub kind : Text
  pub target_id : Text
  pub raw : JsonMap
  pub rejectable : Bool

module _ (library : Library) where
  abbrev pub user_origin : Text → SourceUser → Origin
  user_origin system user =
      let id = source_name (codes "user:") user.user_id in
      record {
        source_id = id;
        kind = codes "tenant";
        target_id = imported_tenant_id library system id;
        raw = user_raw library user;
        rejectable = true;
      }

  abbrev pub token_origin : Text → SourceToken → Origin
  token_origin system token =
      let id = source_name (codes "token:") token.token_id in
      record {
        source_id = id;
        kind = codes "token";
        target_id = imported_tenant_token_id library system id;
        raw = token_raw library token;
        rejectable = true;
      }

  abbrev pub quota_origin : SourceQuota → Origin
  quota_origin quota = record {
    source_id = source_name (codes "quota:") quota.quota_id;
    kind = codes "quota";
    target_id = source_name (codes "quota-") quota.quota_id;
    raw = quota_raw library quota;
    rejectable = false;
  }

  abbrev pub group_origin : Text → JsonMap → Origin
  group_origin id raw = record {
    source_id = codes "group:" ++ id;
    kind = codes "group";
    target_id = codes "group-" ++ id;
    raw = raw;
    rejectable = false;
  }

  abbrev pub table_origin : SourceGroup → Origin
  table_origin group = group_origin group.group_id (group_raw library group)

  abbrev pub channel_origin : Text → Origin
  channel_origin group = group_origin group (channel_group_raw library group)

  -- The texts, each where it stands first.
  unfoldable pub first_of_each : List Text → List Text → List Text
  first_of_each seen [] = []
  first_of_each seen (g ∷ gs) =
      let rest = first_of_each seen gs in
      if any (λ s. s == g) seen then rest else g ∷ first_of_each (g ∷ seen) gs

  -- The groups table, or where it is empty the groups of the channels, each once.
  unfoldable pub group_origins : List SourceChannel → List SourceGroup → List Origin
  unfolding first_of_each
  group_origins channels [] = map channel_origin (first_of_each [] (channel_groups channels))
  group_origins channels (group ∷ groups) = map table_origin (group ∷ groups)

  -- The record says where it stems from.
  pub record StemsFrom (o : Origin) (r : MigrationRecord) : Type 0 where
    pub source_id : r.source_id ≡ o.source_id
    pub kind : r.record_kind ≡ o.kind
    pub raw : r.raw_summary ≡ o.raw
    pub digest : r.source_digest ≡ library.digest_map o.raw

  -- Record by record: each source is imported under its target, or rejected without one where that may be;
  -- so many are imported, so many rejected.
  pub data Traced : List Origin → List MigrationRecord → ℕ → ℕ → Type 0 where
    nothing : Traced [] [] 0 0
    imported :
        {o : Origin} {os : List Origin} {r : MigrationRecord} {rs : List MigrationRecord}
        {m n k : ℕ}
        → StemsFrom o r
        → r.status ≡ codes "imported"
        → r.target_id ≡ o.target_id
        → r.rejection_reason ≡ []
        → Traced os rs m n
        → k ≡ 1 + m
        → Traced (o ∷ os) (r ∷ rs) k n
    rejected :
        {o : Origin} {os : List Origin} {r : MigrationRecord} {rs : List MigrationRecord}
        {m n k : ℕ}
        → StemsFrom o r
        → r.status ≡ codes "rejected"
        → r.target_id ≡ []
        → o.rejectable ≡ true
        → Traced os rs m n
        → k ≡ 1 + n
        → Traced (o ∷ os) (r ∷ rs) m k

  Traced-cast :
      {os : List Origin} {rs : List MigrationRecord} {m n k l : ℕ}
      → Traced os rs m n
      → m ≡ k
      → n ≡ l
      → Traced os rs k l
  Traced-cast {os = os} {rs = rs} {n = n} {k = k} t e f =
      subst (λ l. Traced os rs k l) f (subst (λ k. Traced os rs k n) e t)

  Traced-append :
      {os os' : List Origin} {rs rs' : List MigrationRecord} {m n m' n' : ℕ}
      → Traced os rs m n
      → Traced os' rs' m' n'
      → (k l : ℕ) → k ≡ m + m'
      → l ≡ n + n'
      → Traced (os ++ os') (rs ++ rs') k l
  Traced-append nothing s k l e f = Traced-cast s (omega (arith, e)) (omega (arith, f))
  Traced-append {m' = m'} {n' = n'} (imported {m = m} o st ta re t q) s k l e f =
      imported o st ta re (Traced-append t s (m + m') l refl f) (omega (arith, e, q))
  Traced-append {m' = m'} {n' = n'} (rejected {n = n} o st ta re t q) s k l e f =
      rejected o st ta re (Traced-append t s k (n + n') e refl) (omega (arith, f, q))

  -- The records of the sources are added, the summary counts them, and what is imported is a tenant, a
  -- token, or one of the `staged` records.
  pub record Adds (sources : List Origin) (staged : ℕ) (p q : Plan) : Type 0 where
    pub added : List MigrationRecord
    pub accepted : ℕ
    pub refused : ℕ
    pub appended : q.records ≡ p.records ++ added
    pub traced : Traced sources added accepted refused
    pub imported_count : q.summary.imported_count ≡ p.summary.imported_count + accepted
    pub rejected_count : q.summary.rejected_count ≡ p.summary.rejected_count + refused
    pub planned :
        accepted + (length p.tenants + length p.tenant_tokens)
        ≡ length q.tenants + length q.tenant_tokens + staged
    pub system : q.source_system ≡ p.source_system

  pub Adds-refl : (p : Plan) → Adds [] 0 p p
  Adds-refl p = record {
    added = [];
    accepted = 0;
    refused = 0;
    appended = sym (append-nil p.records);
    traced = nothing;
    imported_count = omega arith;
    rejected_count = omega arith;
    planned = omega arith;
    system = refl;
  }

  pub Adds-trans :
      {a b : List Origin} {m n : ℕ} {p q r : Plan}
      → Adds a m p q
      → Adds b n q r
      → Adds (a ++ b) (m + n) p r
  Adds-trans {p = p} f g = record {
    added = f.added ++ g.added;
    accepted = f.accepted + g.accepted;
    refused = f.refused + g.refused;
    appended =
        g.appended ∙ ap (λ l. l ++ g.added) f.appended ∙ append_assoc p.records f.added g.added;
    traced = Traced-append f.traced g.traced _ _ refl refl;
    imported_count = omega (arith, f.imported_count, g.imported_count);
    rejected_count = omega (arith, f.rejected_count, g.rejected_count);
    planned = omega (arith, f.planned, g.planned);
    system = g.system ∙ f.system;
  }

  -- One source, and then the others.
  pub Adds-cons :
      {o : Origin} {os : List Origin} {m n k : ℕ} {p q r : Plan}
      → Adds (o ∷ []) m p q
      → Adds os n q r
      → m + n ≡ k
      → Adds (o ∷ os) k p r
  Adds-cons {o = o} {os = os} {p = p} {r = r} f g e =
      subst (λ j. Adds (o ∷ os) j p r) e (Adds-trans f g)
