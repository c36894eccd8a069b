-- ===== src/Consumer/Messages.antt =====
-- The loop of `consumeFunction` (runtimes/ts/pkg/consumer.ts): which subject a result goes to.
use litefunctions.Prelude.{
  ◌≡◌, refl, ap, ◌∙◌, List, [], ◌∷◌, ◌++◌, map, arith, append-nil, append_assoc,
}
use litefunctions.Text.{Text, codes, split}
use litefunctions.Text.Split.{Lacks, split_of_Lacks, split-append}
use litefunctions.Text.Utf8.{Bytes}
use litefunctions.Conf.{Settings}
use litefunctions.Value.{View}
use litefunctions.World.{World, Engine, Client, publish}
use litefunctions.Functions.Modules.Keeps.{invoke_module-IsKept}
use litefunctions.Functions.Modules.{invoke_module, to_request_like}
use litefunctions.Consumer.{res_subject, request_id, publish_all, receive}

-- `${project}.${name}.exec.ts.${reqID}`, the subject on which a caller asks for a run
abbrev pub call_subject : Text → Text → Text → Text
call_subject project name req_id =
    project
    ++ (b'.' ∷ (name ++ (b'.' ∷ (codes "exec" ++ (b'.' ∷ (codes "ts" ++ (b'.' ∷ req_id)))))))

abbrev exec_lacks : Lacks b'.' (codes "exec")
exec_lacks = (omega arith, (omega arith, (omega arith, (omega arith, tt))))

abbrev ts_lacks : Lacks b'.' (codes "ts")
ts_lacks = (omega arith, (omega arith, tt))

pub split-call_subject :
    (project name req_id : Text)
    → Lacks b'.' name
    → Lacks b'.' req_id
    → Lacks b'.' project
    → split b'.' (call_subject project name req_id)
      ≡ project ∷ name ∷ codes "exec" ∷ codes "ts" ∷ req_id ∷ []
split-call_subject project name req_id n r p =
    rw
      (split-append b'.' project
        (name ++ (b'.' ∷ (codes "exec" ++ (b'.' ∷ (codes "ts" ++ (b'.' ∷ req_id)))))) p)
      (rw (split-append b'.' name (codes "exec" ++ (b'.' ∷ (codes "ts" ++ (b'.' ∷ req_id)))) n) (
        rw (split-append b'.' (codes "exec") (codes "ts" ++ (b'.' ∷ req_id)) exec_lacks) (
          rw (split-append b'.' (codes "ts") req_id ts_lacks)
            (rw (split_of_Lacks b'.' req_id r) refl))))

-- With no dot in the project's name, the function's or the request's id, the id is read back from
-- the subject of the call.
pub request_id-call_subject :
    (project name req_id : Text)
    → Lacks b'.' name
    → Lacks b'.' req_id
    → Lacks b'.' project
    → request_id (call_subject project name req_id) ≡ req_id
unfolding request_id
request_id-call_subject project name req_id n r p =
    rw (split-call_subject project name req_id n r p) refl

pub publish_all-published :
    (subject : Text) (outs : List Bytes) (c : Client)
    → publish_all subject outs c
      ≡ record c { published = c.published ++ map (λ out. (subject, out)) outs }
unfolding publish_all publish
publish_all-published subject [] c = rw (append-nil c.published) refl
publish_all-published subject (out ∷ outs) c =
    publish_all-published subject outs (publish subject out c)
    ∙ ap (λ l. record c { published = l })
        (append_assoc c.published ((subject, out) ∷ []) (map (λ b. (subject, b)) outs))

-- For a call `<project>.<name>.exec.ts.<id>`, with no dot in the three, the loop publishes what the
-- function yields, all of it and in order, on `<project>.<name>.res.ts.<id>`, and publishes nothing
-- else, whether or not the function fails; CONSUMERS and the subscriptions are as before.
pub receive-call_subject :
    (e : Engine) (s : Settings) (name req_id : Text) (payload : View) (w : World)
    → Lacks b'.' s.project
    → Lacks b'.' name
    → Lacks b'.' req_id
    → let after = receive e s name (call_subject s.project name req_id) payload w in
      let outputs = (invoke_module e name (to_request_like e payload) w).0.outputs in
      (after.client ≡ record w.client {
        published = w.client.published ++ map (λ out. (res_subject s name req_id, out)) outputs;
      })
      × (after.consumers ≡ w.consumers)
unfolding receive
receive-call_subject e s name req_id payload w p n r =
    let kept = invoke_module-IsKept e name (to_request_like e payload) w in
    rw (request_id-call_subject s.project name req_id n r p) (
      rw
        (publish_all-published (res_subject s name req_id)
          (invoke_module e name (to_request_like e payload) w).0.outputs
          (invoke_module e name (to_request_like e payload) w).1.client)
        (rw kept.client (refl, kept.consumers)))
