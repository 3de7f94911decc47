-- ===== src/Secrets/Created.antt =====
-- The create endpoint of internal/domain/secrets/handler.go, and the round trip from a create to
-- its reveal.
use secret_share.Account.Outcomes.{saved}
use secret_share.Secrets.Lifecycle.{classify, reveal_spec, reveal-refines, gone, answer}
use secret_share.Secret.{Time, is_expired, Secret}
use secret_share.Std.{Std}
use secret_share.Secrets.Store.{create, Store}
use secret_share.Secrets.Handler.{
  reveal_handler, Result, size_limit, rejected, create_handler, Env, new_secret, save_secret,
  add_duration, CreateRequest, resolve_ttl, settled,
}
use secret_share.Secrets.Burn.{create_lem}
use secret_share.Prelude.{
  ◌∙◌, ap, lookup, ◌≤◌, eq_refl, sym, len, Bool, true, false, pos, ltb_ℤ, Bool-cases, ◌==◌, ◌⊎◌,
  some, [], inl, Option, ◌≡◌, inr, arith, none, refl, ◌∷◌, String, ℤ, Option-cases, if◌then◌else◌,
}
use secret_share.Http.{body_id, Body, obj, instant, text, Reply}
use secret_share.Config.{SecretsConfig}
use secret_share.Bolt.{Engine, json, raw_at}
use mathlib.Core.Path.{subst}

module _ (std : Std) (E : Engine) (cfg : SecretsConfig) where
  -- A create has stored a secret, under a fresh id that was free, with a lifetime that is accepted.
  pub record IsStored (env : Env) (body : Option CreateRequest) (s : Store E) (r : Reply (Store E))
      : Type 0 where
    pub id : String
    pub request : CreateRequest
    pub ttl : ℤ
    pub fresh : env.new_id ≡ some id
    pub parsed : body ≡ some request
    pub lifetime : resolve_ttl std cfg request.ttl ≡ settled ttl
    pub free : raw_at E s id ≡ none
    pub answered : r.1 ≡ record {
      status = 201;
      body = obj (("id", text id) ∷ ("expires_at", instant (add_duration env.now ttl)) ∷ []);
    }
    pub written :
        (j : String)
        → raw_at E r.2 j ≡ (
            if id == j
            then some (
                json (record {
                  id = id;
                  ciphertext = request.ciphertext;
                  created_at = env.now;
                  expires_at = add_duration env.now ttl;
                  size = len request.ciphertext;
                }))
            else raw_at E s j)

  -- A create has stored nothing, and says so.
  pub record IsRefused (s : Store E) (r : Reply (Store E)) : Type 0 where
    pub refused : (r.1.status ≡ 400) ⊎ (r.1.status ≡ 413) ⊎ (r.1.status ≡ 500)
    pub unchanged : (j : String) → raw_at E r.2 j ≡ raw_at E s j

  save_at :
      (env : Env) (req : CreateRequest) (s : Store E) (id : String) (ttl : ℤ)
      → env.new_id ≡ some id
      → resolve_ttl std cfg req.ttl ≡ settled ttl
      → let r = save_secret std E cfg env (new_secret std E cfg id req.ciphertext env.now ttl) s in
        IsStored env (some req) s r ⊎ IsRefused s r
  unfolding save_secret new_secret
  save_at env req s id ttl p q =
      let sec : Secret = new_secret std E cfg id req.ciphertext env.now ttl in
      elim (Option-cases (create E env.save (some sec) s).1) [
        | inl saved ↦ inl (record {
          id = id;
          request = req;
          ttl = ttl;
          fresh = p;
          parsed = refl;
          lifetime = q;
          free = ((create_lem E env.save sec id s).1 saved).0;
          answered = ground arith;
          written = λ j. ground (arith, create_lem E env.save sec j s);
        })
        | inr (e, lost) ↦ inr (record {
          refused = ground arith;
          unchanged = λ j. ground (arith, create_lem E env.save sec j s);
        })
      ]

  -- A create stores the ciphertext that was sent, with its length, from now to the end of an
  -- accepted lifetime, under a fresh id that was free, leaves all else, and answers the id and the
  -- end; or it answers 400, 413 or 500 and stores nothing.
  pub create_handler_lem :
      (env : Env) (body : Option CreateRequest) (s : Store E)
      → let r = create_handler std E cfg env body s in IsStored env body s r ⊎ IsRefused s r
  unfolding create_handler
  create_handler_lem env none s = inr (record { refused = inl refl; unchanged = λ j. refl })
  create_handler_lem env (some req) s =
      split (Bool-cases (std.trim_space req.ciphertext == ""))
        (Bool-cases (ltb_ℤ (size_limit cfg.max_size_bytes) (pos (len req.ciphertext))))
        (resolve_ttl std cfg req.ttl) env.new_id refl refl
    where
      IsTrue : Bool → Type 0
      IsTrue b = (b ≡ true) ⊎ (b ≡ false)

      split :
          IsTrue (std.trim_space req.ciphertext == "")
          → IsTrue (ltb_ℤ (size_limit cfg.max_size_bytes) (pos (len req.ciphertext)))
          → (t : Result ℤ) (i : Option String) → resolve_ttl std cfg req.ttl ≡ t
          → env.new_id ≡ i
          → let r = create_handler std E cfg env (some req) s in
            IsStored env (some req) s r ⊎ IsRefused s r
      split (inl blank) _ t i p q =
          inr (record { refused = ground arith; unchanged = λ j. ground arith })
      split (inr filled) (inl big) t i p q =
          inr (record { refused = ground arith; unchanged = λ j. ground arith })
      split (inr filled) (inr fits) (rejected msg) i p q =
          inr (record { refused = ground arith; unchanged = λ j. ground arith })
      split (inr filled) (inr fits) (settled ttl) none p q =
          inr (record { refused = ground arith; unchanged = λ j. ground arith })
      split (inr filled) (inr fits) (settled ttl) (some id) p q =
          let same : create_handler std E cfg env (some req) s
              ≡ save_secret std E cfg env (new_secret std E cfg id req.ciphertext env.now ttl) s =
            ground arith in
          subst (λ r. IsStored env (some req) s r ⊎ IsRefused s r) (sym same)
            (save_at env req s id ttl q p)

  -- A commit of a reveal succeeds.
  abbrev pub Commits : Env → Type 0
  Commits env = (env.burn ≡ none) × (env.reap ≡ none)

  -- The id and the end of the lifetime that a create has answered.
  answered_end : Body → Option Time
  answered_end (obj m) = elim (lookup "expires_at" m) [
    | none ↦ none
    | some v ↦ elim v [ instant t ↦ some t | _ ↦ none ]
  ]
  answered_end _ = none

  -- A create that answers 201 has stored what was sent, under the id and until the end that it
  -- answers.
  created_lem :
      (env : Env) (req : CreateRequest) (s : Store E) (id : String) (end : Time)
      → (create_handler std E cfg env (some req) s).1
        ≡ record { status = 201; body = obj (("id", text id) ∷ ("expires_at", instant end) ∷ []) }
      → raw_at E (create_handler std E cfg env (some req) s).2 id
        ≡ some (
            json (record {
              id = id;
              ciphertext = req.ciphertext;
              created_at = env.now;
              expires_at = end;
              size = len req.ciphertext;
            }))
  unfolding body_id answered_end
  created_lem env req s id end h = elim (create_handler_lem env (some req) s) [
    | inr none_stored ↦ absurd (refusal none_stored)
    | inl c ↦
        let same_id : c.id ≡ id =
          some-inj (sym (ap (λ r. body_id r.body) c.answered) ∙ ap (λ r. body_id r.body) h) in
        let same_end : add_duration env.now c.ttl ≡ end =
          some-inj
            (sym (ap (λ r. answered_end r.body) c.answered) ∙ ap (λ r. answered_end r.body) h) in
        let sent : req ≡ c.request = some-inj c.parsed in
        let here : (c.id == id) ≡ true = ap (λ k. k == id) same_id ∙ eq_refl id in
        let text_sent : c.request.ciphertext ≡ req.ciphertext = ap (λ r. r.ciphertext) (sym sent) in
        ground (arith, c.written id, here, same_id, same_end, text_sent)
  ]
    where
      some-inj : {A : Type 0} {a b : A} → some a ≡ some b → a ≡ b
      some-inj e = cc

      refusal : IsRefused s (create_handler std E cfg env (some req) s) → ⊥
      refusal r =
          let code : (create_handler std E cfg env (some req) s).1.status ≡ 201 =
            ap (λ r. r.status) h in
          let why = r.refused in ground arith

  -- Round trip: where a create has answered 201, with an id and the end of a lifetime, and the
  -- commits of two reveals of that id succeed, the first of them, no later than that end, answers
  -- the ciphertext that was sent, and the second answers 404.
  pub reveal-create :
      (env : Env) (req : CreateRequest) (s : Store E) (id : String) (end : Time) (now later : Env)
      → (create_handler std E cfg env (some req) s).1
        ≡ record { status = 201; body = obj (("id", text id) ∷ ("expires_at", instant end) ∷ []) }
      → Commits now
      → Commits later
      → now.now ≤ end
      → let s1 = (create_handler std E cfg env (some req) s).2 in
        let first = reveal_handler std E cfg now id s1 in
        let second = reveal_handler std E cfg later id first.2 in
        (first.1 ≡ answer 200 (("ciphertext", text req.ciphertext) ∷ [])) × (second.1 ≡ gone)
  unfolding classify reveal_spec is_expired
  reveal-create env req s id end now later answered cn cl h =
      let s1 = (create_handler std E cfg env (some req) s).2 in
      let first = reveal_handler std E cfg now id s1 in
      let a = reveal-refines std E cfg now id id s1 cn.0 cn.1 in
      let b = reveal-refines std E cfg later id id first.2 cl.0 cl.1 in
      let w = created_lem env req s id end answered in
      (ground (arith, a, w, eq_refl id), ground (arith, a, b, w, eq_refl id))
