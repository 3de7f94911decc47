-- ===== src/Tests/Secrets.antt =====
-- Tests of the secrets, the view budgets and the private marks.
use secret_share.Tests.Fixtures.{old_secret, settings, env_at, one_secret, plain, one_budget}
use secret_share.Secrets.Once.{creates}
use secret_share.Views.Limit.{served_in, served-le-granted, spare, consumes, granted_in, grants}
use secret_share.Views.Budget.{is_budget}
use secret_share.Secrets.Sweep.{keep_fresh, delete_expired_lem, pairs, stale_count}
use secret_share.Secrets.Store.{create, Store, get_and_burn, get_meta, delete_expired}
use secret_share.Secrets.Once.{creates, burns, stored_in, burnt_in, present, burnt-le-stored}
use secret_share.Secrets.Lifecycle.{
  meta-refines, kept, meta_spec, reveal_sound, classify, answer, reveal_spec, reveal-refines, gone,
}
use secret_share.Secrets.Handler.{
  save_secret, size_limit, add_duration, new_secret, reveal_handler, create_handler, settled,
  resolve_ttl, meta_handler, CreateRequest,
}
use secret_share.Secrets.Created.{IsStored, reveal-create, create_handler_lem, IsRefused}
use secret_share.Secrets.Burn.{committed}
use secret_share.Secret.{encodable, is_expired, Secret}
use secret_share.Prelude.{arith, refl, none, some, true, ◌+◌, ◌⊎◌, ◌∷◌, ◌≤◌, ◌≡◌, false, [], pos}
use secret_share.Http.{instant, Reply, text, obj}
use secret_share.Config.{hour, max_ttl_duration}
use secret_share.Bolt.Memory.{memory}
use secret_share.Bolt.{json, raw_at}

-- A secret that has not expired is burnt once.
burn_then_gone :
    (reveal_handler plain memory settings (env_at 50 "b") "a" one_secret).1
    ≡ answer 200 (("ciphertext", text "ct") ∷ [])
unfolding reveal_handler memory one_secret get_meta is_expired get_and_burn
burn_then_gone = refl

reveal-refines_example :
    let r = reveal_handler plain memory settings (env_at 50 "b") "a" one_secret in
    let c = reveal_spec (classify 50 (raw_at memory one_secret "a")) in
    (r.1 ≡ c.0) × (raw_at memory r.2 "a" ≡ kept c.1 "a" "a" (raw_at memory one_secret "a"))
reveal-refines_example =
    reveal-refines plain memory settings (env_at 50 "b") "a" "a" one_secret refl refl

meta-refines_example :
    let r = meta_handler plain memory settings (env_at 101 "b") "a" one_secret in
    let c = meta_spec (classify 101 (raw_at memory one_secret "a")) in
    (r.1 ≡ c.0) × (raw_at memory r.2 "a" ≡ kept c.1 "a" "a" (raw_at memory one_secret "a"))
meta-refines_example = meta-refines plain memory settings (env_at 101 "b") "a" "a" one_secret refl

reveal_is_200 : (reveal_handler plain memory settings (env_at 50 "b") "a" one_secret).1.status ≡ 200
unfolding reveal_handler memory one_secret get_meta is_expired get_and_burn
reveal_is_200 = refl

reveal_sound_example :
    let r = reveal_handler plain memory settings (env_at 50 "b") "a" one_secret in
    (sec : Secret) × (raw_at memory one_secret "a" ≡ some (json sec))
    × (is_expired sec 50 ≡ false)
    × (r.1.body ≡ obj (("ciphertext", text sec.ciphertext) ∷ []))
    × (raw_at memory r.2 "a" ≡ none)
reveal_sound_example =
    reveal_sound plain memory settings (env_at 50 "b") "a" "a" one_secret reveal_is_200

-- A create under a free id, a reveal of it and one more.
abbrev request : CreateRequest
request = record { ttl = "1h"; ciphertext = "ct" }

create_handler_lem_example :
    let r = create_handler plain memory settings (env_at 50 "b") (some request) one_secret in
    IsStored plain memory settings (env_at 50 "b") (some request) one_secret r
    ⊎ IsRefused plain memory settings one_secret r
create_handler_lem_example =
    create_handler_lem plain memory settings (env_at 50 "b") (some request) one_secret

resolve_one_hour : resolve_ttl plain settings "1h" ≡ settled (pos hour)
unfolding resolve_ttl max_ttl_duration
resolve_one_hour = refl

abbrev made : Reply (Store memory)
made = create_handler plain memory settings (env_at 50 "b") (some request) one_secret

create_answers :
    (made.1 ≡ record {
      status = 201;
      body = obj (("id", text "b") ∷ ("expires_at", instant (add_duration 50 (pos hour))) ∷ []);
    })
    × (raw_at memory one_secret "b" ≡ none)
unfolding create_handler size_limit resolve_ttl max_ttl_duration save_secret new_secret create
    encodable raw_at memory one_secret
create_answers = (refl, refl)

reveal-create_example :
    let s1 = (create_handler plain memory settings (env_at 50 "b") (some request) one_secret).2 in
    let first = reveal_handler plain memory settings (env_at 60 "c") "b" s1 in
    let second = reveal_handler plain memory settings (env_at 70 "d") "b" first.2 in
    (first.1 ≡ answer 200 (("ciphertext", text "ct") ∷ [])) × (second.1 ≡ gone)
reveal-create_example =
    reveal-create plain memory settings (env_at 50 "b") request one_secret "b"
      (add_duration 50 (pos hour)) (env_at 60 "c") (env_at 70 "d") create_answers.0 (refl, refl)
      (refl, refl) (omega arith)

burnt-le-stored_example :
    burnt_in memory "a"
      (burns none "a" ∷ creates none (old_secret "a") ∷ burns none "a" ∷ [])
      one_secret
    ≤ stored_in memory "a"
        (burns none "a" ∷ creates none (old_secret "a") ∷ burns none "a" ∷ [])
        one_secret
      + present (raw_at memory one_secret "a")
burnt-le-stored_example =
    burnt-le-stored memory "a"
      (burns none "a" ∷ creates none (old_secret "a") ∷ burns none "a" ∷ []) one_secret

delete_expired_lem_example :
    let r = delete_expired memory none 101 one_secret in
    (r.0 ≡ stale_count 101 (pairs memory one_secret))
    × (raw_at memory r.2 "a"
        ≡ committed r.1
            (keep_fresh 101 (raw_at memory one_secret "a"))
            (raw_at memory one_secret "a"))
    × ((r.1 ≡ none) ⊎ (r.1 ≡ none))
delete_expired_lem_example = delete_expired_lem memory none 101 "a" one_secret

budget_is_good : is_budget (raw_at memory one_budget "a") ≡ true
unfolding raw_at memory one_budget
budget_is_good = refl

served-le-granted_example :
    let ops = consumes none "a" ∷ grants none "a" (pos 3) "ct" ∷ consumes none "a" ∷ [] in
    served_in memory "a" ops one_budget
    ≤ granted_in memory "a" ops + spare (raw_at memory one_budget "a")
served-le-granted_example =
    served-le-granted memory "a"
      (consumes none "a" ∷ grants none "a" (pos 3) "ct" ∷ consumes none "a" ∷ []) one_budget refl
      (tt, (omega arith, (tt, tt))) budget_is_good
