-- ===== src/Rkctl/Actions.antt =====
-- An action of the client, on its way through the administration to the registry.
use Prim.Native.String.{String, ◌++◌}
use text.Mathlib.TextLemmas.{nil-append, cons-append, append_assoc, append-ne-nil_of_right_ne-nil}
use rassberry.Base.{
  ℕ, Option, false, none, some, ◌∷◌, ◌≡◌, ◌≢◌, refl, ap, arith, ne_of_false, eq_refl, differ,
}
use rassberry.Base.Maps.{lookup, lookup-insert}
use rassberry.Contracts.{Health}
use rassberry.Registry.{
  KernelRecord, update_health, mark_health, get_record, unknown_record, or_now,
}
use rassberry.Registry.Store.{apply, update_health_call, call_id, apply-frame}
use rassberry.Admin.{
  AdminServer, Clock, Response, respond, accepted, restarted, drained, put_health, control_handler,
  prefix_kernels,
}
use rassberry.Rkctl.{Exchange, finished, asks, base_url, action_path, cmd_kernels_action}
use rassberry.Text.{holds, slash, split, split-append, trim_prefix, trim_prefix-append}

pub data Action : Type 0 where
  restart drain : Action

abbrev pub name : Action → String
name restart = "restart"
name drain = "drain"

-- The health that an action stands for.
abbrev pub mark : Action → ℕ → Health
mark restart since = restarted since
mark drain since = drained since

-- `served` is the path that the library shows the handler of a URL.
abbrev pub deliver :
    (String → String) → Exchange → Clock → AdminServer → AdminServer × Option Response
deliver served (finished out) t s = (s, none)
deliver served (asks r) t s =
    let (s, answer) = control_handler r.method (served r.url) t s in (s, some answer)

-- The health of a kernel in the registry.
abbrev pub health_of : Option KernelRecord → Option Health
health_of none = none
health_of (some rec) = some rec.health

parts_of_path :
    (id rest : String)
    → holds slash id ≡ false
    → split slash (trim_prefix ("/admin/kernels/" ++ (id ++ ("/" ++ rest))) prefix_kernels)
      ≡ id ∷ split slash rest
unfolding split
parts_of_path id rest h =
    rw
      (
        trim_prefix-append "/admin/kernels/" (id ++ ("/" ++ rest)),
        cons-append "/" "" rest,
        nil-append rest,
      )
      (split-append "/" id rest h)

pub control_of_action :
    (a : Action) (id : String) (t : Clock) (s : AdminServer)
    → holds slash id ≡ false
    → control_handler "POST" (action_path id (name a)) t s
      ≡ (put_health id (mark a t.handler) t s, respond 202 (accepted (name a) id))
unfolding control_handler split
control_of_action restart id t s h = rw (parts_of_path id "restart" h) refl
control_of_action drain id t s h = rw (parts_of_path id "drain" h) refl

abbrev marked : Action → String → Clock → AdminServer → KernelRecord
marked a id t s =
    mark_health (mark a t.handler) t.since t.registered t.updated
      (get_record (lookup id s.reg.kernels) (unknown_record id))

or_now_set : (t now : ℕ) → t ≢ 0 → or_now t now ≡ t
or_now_set t now n = ground arith

marked_health :
    (a : Action) (id : String) (t : Clock) (s : AdminServer)
    → t.handler ≢ 0
    → health_of (lookup id (put_health id (mark a t.handler) t s).reg.kernels)
      ≡ some (mark a t.handler)
unfolding update_health
marked_health a id t s n =
    rw (lookup-insert id id (marked a id t s) s.reg.kernels, eq_refl id) (ap some (kept a))
  where
    kept : (a : Action) → (marked a id t s).health ≡ mark a t.handler
    kept restart = rw (or_now_set t.handler t.since n) refl
    kept drain = rw (or_now_set t.handler t.since n) refl

pub action_marked :
    (a : Action) (http id : String) (served : String → String) (t : Clock) (s : AdminServer)
    → id ≢ ""
    → holds slash id ≡ false
    → served (base_url http ++ action_path id (name a)) ≡ action_path id (name a)
    → t.handler ≢ 0
    → let after = (deliver served (cmd_kernels_action http id (name a)) t s).0 in
      health_of (lookup id after.reg.kernels) ≡ some (mark a t.handler)
unfolding cmd_kernels_action
action_marked a http id served t s e h p n =
    rw (ne_of_false id "" e, p, control_of_action a id t s h) (marked_health a id t s n)

-- For an id that is not empty and has no slash, behind a server that shows the handler the path of the
-- URL, `rkctl kernels restart` and `drain` are accepted, leave that kernel with the health of the
-- action, and leave the record of every other kernel as it is.
pub cmd_kernels_action-marks :
    (a : Action) (http id j : String) (served : String → String) (t : Clock) (s : AdminServer)
    → id ≢ ""
    → holds slash id ≡ false
    → served (base_url http ++ action_path id (name a)) ≡ action_path id (name a)
    → t.handler ≢ 0
    → id ≢ j
    → let r = deliver served (cmd_kernels_action http id (name a)) t s in
      (r.1 ≡ some (respond 202 (accepted (name a) id)))
      × (health_of (lookup id r.0.reg.kernels) ≡ some (mark a t.handler))
      × (lookup j r.0.reg.kernels ≡ lookup j s.reg.kernels)
unfolding cmd_kernels_action call_id update_health apply
cmd_kernels_action-marks a http id j served t s e h p n k =
    rw (ne_of_false id "" e, p, control_of_action a id t s h)
      (
        refl,
        marked_health a id t s n,
        apply-frame (update_health_call id (mark a t.handler) t.since t.registered t.updated) s.reg
            j k,
      )

slash_name : (b : Action) → ("/" ++ name b) ≢ ""
slash_name restart = differ _ _ refl
slash_name drain = differ _ _ refl

control_of_slash :
    (a b : Action) (id : String) (t : Clock) (s : AdminServer)
    → holds slash id ≡ false
    → control_handler "POST" (action_path (id ++ ("/" ++ name b)) (name a)) t s
      ≡ (put_health id (mark b t.handler) t s, respond 202 (accepted (name b) id))
unfolding control_handler split
control_of_slash restart restart id t s h =
    rw (append_assoc id "/restart" "/restart", parts_of_path id "restart/restart" h) refl
control_of_slash drain restart id t s h =
    rw (append_assoc id "/restart" "/drain", parts_of_path id "restart/drain" h) refl
control_of_slash restart drain id t s h =
    rw (append_assoc id "/drain" "/restart", parts_of_path id "drain/restart" h) refl
control_of_slash drain drain id t s h =
    rw (append_assoc id "/drain" "/drain", parts_of_path id "drain/drain" h) refl

-- An id with a slash is not escaped: `rkctl kernels restart --id a/drain` drains the kernel `a`, and
-- likewise for every pair of actions, the part of the id behind the slash is the action that is done.
pub cmd_kernels_action-slash :
    (a b : Action) (http id : String) (served : String → String) (t : Clock) (s : AdminServer)
    → holds slash id ≡ false
    → (let path = action_path (id ++ ("/" ++ name b)) (name a) in
        served (base_url http ++ path) ≡ path)
    → deliver served (cmd_kernels_action http (id ++ ("/" ++ name b)) (name a)) t s
      ≡ (put_health id (mark b t.handler) t s, some (respond 202 (accepted (name b) id)))
unfolding cmd_kernels_action
cmd_kernels_action-slash a b http id served t s h p =
    rw (ne_of_false (id ++ ("/" ++ name b)) "" (append-ne-nil_of_right_ne-nil id (slash_name b)), p)
      (rw (control_of_slash a b id t s h) refl)
