-- ===== src/Server/Multiview.antt =====
-- Multi-view secrets at the edge, internal/server/multiview.go.
use secret_share.Views.Store.{put_budget, consume, remaining_views}
use secret_share.Std.{Std}
use secret_share.Server.World.{ViewsRequest, World, Handler}
use secret_share.Prelude.{
  ◌&&◌, ◌==◌, [], none, not, String, ◌∷◌, Option, ◌||◌, ◌++◌, some, pos, leb_ℤ, ltb_ℤ, ℤ, eqb,
  if◌then◌else◌,
}
use secret_share.Http.{
  error, formatted_int, ok, body_id, internal, int, is_success, Body, text, obj,
}
use secret_share.Config.{SecretsConfig}
use secret_share.Bolt.{Error, Engine}

unfoldable pub max_views : SecretsConfig → ℤ
max_views cfg = if ltb_ℤ (pos 1) cfg.max_views then cfg.max_views else pos 1

module _ (std : Std) (E : Engine) where
  -- After a create: the budget is recorded under the id that it answered.
  unfoldable pub record_views : Option Error → ViewsRequest → Handler std E → Handler std E
  record_views budget req next w =
      let (err, resp, w') = next w in
      elim err [
        | some e ↦ (some e, resp, w')
        | none ↦
            if leb_ℤ req.views (pos 1) || not (is_success resp.status)
            then (none, resp, w')
            else elim (body_id resp.body) [
              | none ↦ (none, resp, w')
              | some id ↦ if id == "" then (none, resp, w') else (
                none,
                resp,
                record w' { views = (put_budget E budget id req.views req.ciphertext w'.views).2 },
              )
            ]
      ]

  unfoldable pub capture_views :
      SecretsConfig → Option Error → ViewsRequest → Handler std E → Handler std E
  capture_views cfg budget req next w =
      if not req.failed && (ltb_ℤ req.views (pos 0) || ltb_ℤ (max_views cfg) req.views)
      then error 400 (formatted_int "views must be between 1 and %d" (max_views cfg)) w
      else record_views budget req next w

  unfoldable pub multi_view_reveal : Option Error → String → Handler std E → Handler std E
  multi_view_reveal take id next w =
      let (c, err, views') = consume E take id w.views in
      let w' : World std E = record w { views = views' } in
      elim err [
        | some e ↦ internal w'
        | none ↦
            if c.found && ltb_ℤ (pos 0) c.remaining
            then ok (("ciphertext", text c.ciphertext) ∷ ("views_remaining", int c.remaining) ∷ [])
                w'
            else next w'
      ]

  -- The meta answer with the number of views; `null` bodies and texts are left alone.
  unfoldable pub annotate : ℤ → Body → Body
  annotate n (obj m) = obj (m ++ ("views_remaining", int n) ∷ [])
  annotate n b = b

  unfoldable pub annotate_views_meta : String → Handler std E → Handler std E
  annotate_views_meta id next w =
      let (err, resp, w') = next w in
      elim err [
        | some e ↦ (some e, resp, w')
        | none ↦
            if eqb resp.status 200
            then (let (n, found) = remaining_views E id w'.views in
                if found
                then (none, record resp { body = annotate n resp.body }, w')
                else (none, resp, w'))
            else (none, resp, w')
      ]
