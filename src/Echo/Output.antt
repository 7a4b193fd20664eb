-- ===== src/Echo/Output.antt =====
-- What is queued for each client.
use auxiliary_tool.Common.{
  ℕ, suc, ◌-◌, ◌≡◌, inl, inr, refl, sym, ap, ap₂, subst, ◌∙◌, true, false, some, List, [], ◌∷◌,
  ◌++◌, append_assoc, append-nil, Bytes, ◌==◌, if◌then◌else◌, arith, minus_one, Lacks, All, length,
  drop, Bool-cases, Option-cases,
}
use auxiliary_tool.Echo.{
  home_page, Server, strncpy, alloc_buffer, write, on_new_connection, process_request, on_write,
  Event, connected, received, ended, written, started, step, run, returned, serving, main,
}

pub strncpy-append : (s t : Bytes) → Lacks 0 s → strncpy (length s) (s ++ t) ≡ s
unfolding strncpy
strncpy-append [] t h = refl
strncpy-append (c ∷ s) t (hc, h) = ground (arith, strncpy-append s t h)

-- What an event means for the output of client `id`, when `n` clients have been accepted.
unfoldable pub sent_by : ℕ → ℕ → Event → Bytes
sent_by id n (connected true true) = if n == id then home_page else []
sent_by id n (connected true false) = []
sent_by id n (connected false taken) = []
sent_by id n (received true other size text) = if other == id then text else []
sent_by id n (received false other size text) = []
sent_by id n (ended other) = []
sent_by id n (written status) = []

unfoldable pub accepted_by : Event → ℕ → ℕ
accepted_by (connected true taken) n = suc n
accepted_by _ n = n

-- The greeting of the client and all that it has sent, in order, but for what uv_write refuses.
unfoldable pub expected : ℕ → ℕ → List Event → Bytes
expected id n [] = []
expected id n (e ∷ es) = sent_by id n e ++ expected id (accepted_by e n) es

-- What is read holds no zero byte.
abbrev pub IsText : Event → Type 0
IsText (received taken other size text) = Lacks 0 text
IsText _ = Unit

write-queued :
    (id other : ℕ) (text : Bytes) (s : Server)
    → (write true id text s).queued other ≡ s.queued other ++ (if id == other then text else [])
unfolding write
write-queued id other text s = elim (Bool-cases (id == other)) [
  | inl e ↦ rw e
  | inr e ↦ rw e (sym (append-nil _))
]

greeting : strncpy (length home_page) home_page ≡ home_page
unfolding strncpy
greeting = refl

some-injective : (s t : Server) → some s ≡ some t → s ≡ t
some-injective s t h = cc

-- What an event leaves, by the number of clients and what is added to each output.
abbrev Adds : ℕ → (ℕ → Bytes) → Server → Server → Type 0
Adds n more s t = (t.clients ≡ n) × ((id : ℕ) → t.queued id ≡ s.queued id ++ more id)

Adds-nothing : (s : Server) → Adds s.clients (λ id. []) s s
Adds-nothing s = (refl, λ id. sym (append-nil (s.queued id)))

step-Adds :
    (e : Event) (s t : Server)
    → IsText e
    → step e s ≡ some t
    → Adds (accepted_by e s.clients) (λ id. sent_by id s.clients e) s t
unfolding step on_new_connection process_request on_write sent_by accepted_by write
step-Adds (connected true true) s t text h =
    let named = record s { clients = suc s.clients } in
    let add = λ (id : ℕ).
      (write-queued s.clients id (strncpy (length home_page) home_page) named
        ∙ ap (λ page. s.queued id ++ (if s.clients == id then page else [])) greeting) in
    subst (Adds (suc s.clients) (λ id. if s.clients == id then home_page else []) s)
      (some-injective _ t h) (refl, add)
step-Adds (connected true false) s t text h =
    subst (Adds (suc s.clients) (λ id. []) s) (some-injective _ t h)
      (refl, λ id. sym (append-nil (s.queued id)))
step-Adds (connected false taken) s t text h =
    subst (Adds s.clients (λ id. []) s) (some-injective _ t h) (Adds-nothing s)
step-Adds (received true other size read) s t text h =
    let base = drop (length read) (alloc_buffer size) in
    let add = λ (id : ℕ).
      (write-queued other id (strncpy (length read) (read ++ base)) s
        ∙ ap (λ copy. s.queued id ++ (if other == id then copy else []))
            (strncpy-append read base text)) in
    subst (Adds s.clients (λ id. if other == id then read else []) s) (some-injective _ t h)
      (refl, add)
step-Adds (received false other size read) s t text h =
    subst (Adds s.clients (λ id. []) s) (some-injective _ t h) (Adds-nothing s)
step-Adds (ended other) s t text h = cc
step-Adds (written status) s t text h = elim (Bool-cases (s.in_flight == 0)) [
  | inl e ↦ absurd (ground arith)
  | inr e ↦
      subst (Adds s.clients (λ id. []) s) {x = record s { in_flight = s.in_flight - 1 }} {y = t}
        (ground arith) (Adds-nothing s)
]

-- If no read holds a zero byte, a run that does not fault queues for each client the greeting when it
-- is accepted and then all that it has sent, in order, but for the writes that uv_write refuses, and
-- nothing else.
pub run-expected :
    (es : List Event) (s t : Server)
    → All IsText es
    → run es s ≡ some t
    → (id : ℕ) → t.queued id ≡ s.queued id ++ expected id s.clients es
unfolding run expected
run-expected [] s t text h id =
    ap (λ (u : Server). u.queued id) (sym (some-injective s t h)) ∙ sym (append-nil _)
run-expected (e ∷ es) s t (text, texts) h id = elim (Option-cases (step e s)) [
  | inl none_left ↦ absurd (ground arith)
  | inr (u, stepped) ↦
      let (accepted, added) = step-Adds e s u text stepped in
      let later : run es u ≡ some t = ground arith in
      run-expected es u t texts later id
      ∙ ap₂ (λ out n. out ++ expected id n es) (added id) accepted
      ∙ append_assoc (s.queued id) (sent_by id s.clients e) _
]

-- If no read holds a zero byte, and main listens, then after any events that cause no fault main is
-- still serving, and for each client uv_write has queued the greeting when it was accepted and then
-- all that it has sent, in order, but for the writes that uv_write refuses, and nothing else,
-- whatever status the finished writes have. If it does not listen, main returns -1.
pub main-expected :
    (es : List Event) (t : Server)
    → All IsText es
    → run es started ≡ some t
    → (main true es ≡ some (serving t))
      × ((id : ℕ) → t.queued id ≡ expected id 0 es)
      × (main false es ≡ some (returned minus_one))
unfolding main
main-expected es t texts h = (rw (h, main), run-expected es started t texts h, refl)
