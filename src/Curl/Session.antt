-- ===== src/Curl/Session.antt =====
-- A session of curl_t against its abstract form, in which each call is a request of its own.
use auxiliary_tool.Common.{
  ℕ, ◌+◌, ◌≡◌, inl, inr, refl, sym, ap, ◌∙◌, Bool, true, false, ◌||◌, Option, none, some, List, [],
  ◌∷◌, ◌++◌, append_assoc, append-nil, Bytes, codes, ℤ, succeeded, pos, minus_one, if◌then◌else◌,
  joined, Bool-cases,
}
use auxiliary_tool.Curl.{
  get, post, Headers, unset, listed, freed, Body, empty, Request, Client, receive_data, receive_all,
  Network, ClientLine, reported, told, missing, post_body, slist, perform, set_headers, url_get,
  url_post, Call, gets, posts,
}

pub receive_all-joined :
    (blocks : List Bytes) (buff : Bytes) → receive_all blocks buff ≡ buff ++ joined blocks
unfolding receive_all receive_data
receive_all-joined [] buff = sym (append-nil buff)
receive_all-joined (block ∷ blocks) buff =
    receive_all-joined blocks (buff ++ block) ∙ append_assoc buff block (joined blocks)

-- The request that a call describes.
unfoldable pub request_of : Call → Request
request_of (gets url) = record {
  method = get;
  url = url;
  headers = codes "name:francis" ∷ [];
  body = empty;
}
request_of (posts url head text) = record {
  method = post;
  url = url;
  headers = slist head;
  body = post_body text;
}

-- Whether a call follows a list of headers that has been freed, if `stale` says that the option
-- points to one; and whether it does behind the call.
unfoldable pub faults : Bool → Call → Bool
faults stale (gets url) = false
faults stale (posts url [] text) = stale
faults stale (posts url (h ∷ head) text) = false

unfoldable pub stale_after : Call → Bool
stale_after (gets url) = false
stale_after (posts url [] text) = false
stale_after (posts url (h ∷ head) text) = true

unfoldable pub some_fault : Bool → List Call → Bool
some_fault stale [] = false
some_fault stale (call ∷ calls) = faults stale call || some_fault (stale_after call) calls

abbrev header_state : Bool → Headers
header_state true = freed
header_state false = unset

abbrev pub Ready : Bool → Client → Type 0
Ready stale c = (c.has_handle ≡ true) × (c.header_option ≡ header_state stale)

-- What a call returns, what it prints, and what it leaves in the buffer.
abbrev Result : Type 0
Result = ℤ × List ClientLine × Bytes

module _ (network : Network) where
  -- What a call returns, prints and leaves in the buffer, by the network's answer to its request, if
  -- that is its n-th transfer.
  unfoldable pub answer : ℕ → Call → Result
  answer n call =
      let (code, blocks, err) = network n (request_of call) in
      let ret = if succeeded code then pos 0 else minus_one in
      (ret, reported (request_of call).method ret err (joined blocks), joined blocks)

  abbrev with_buffer : Option (ℤ × List ClientLine × Client) → Option (Result × Client)
  with_buffer none = none
  with_buffer (some (ret, lines, c)) = some ((ret, lines, c.buff), c)

  unfoldable pub call_client : Call → Client → Option (Result × Client)
  call_client (gets url) c = with_buffer (url_get network url c)
  call_client (posts url head text) c = with_buffer (url_post network url head text c)

  unfoldable pub run : List Call → Client → Option (List Result)
  run [] c = some []
  run (call ∷ calls) c = elim (call_client call c) [
    | none ↦ none
    | some (result, c') ↦ elim (run calls c') [
      | none ↦ none
      | some results ↦ some (result ∷ results)
    ]
  ]

  -- What a transfer does to a client whose option gives these headers.
  abbrev sent : Body → List Bytes → Client → ℤ × Client
  sent body headers c =
      let (code, blocks, err) =
        network c.transfers
          (record { method = c.method; url = c.url; headers = headers; body = body }) in
      (
        if succeeded code then pos 0 else minus_one,
        record c { buff = c.buff ++ joined blocks; err_msg = err; transfers = c.transfers + 1 },
      )

  perform-listed :
      (body : Body) (headers : List Bytes) (c : Client)
      → c.has_handle ≡ true
      → c.header_option ≡ listed headers
      → perform network body c ≡ some (sent body headers c)
  unfolding perform
  perform-listed body headers c e e' =
      rw (e, perform) (rw (e', perform) (rw (receive_all-joined _ c.buff) (rw (e, e'))))

  perform-unset :
      (body : Body) (c : Client)
      → c.has_handle ≡ true
      → c.header_option ≡ unset
      → perform network body c ≡ some (sent body [] c)
  unfolding perform
  perform-unset body c e e' =
      rw (e, perform) (rw (e', perform) (rw (receive_all-joined _ c.buff) (rw (e, e'))))

  call_client-none :
      (call : Call) (stale : Bool) (c : Client)
      → Ready stale c
      → faults stale call ≡ true
      → call_client call c ≡ none
  unfolding call_client faults url_post perform
  call_client-none (gets url) stale c (e, e') f = cc
  call_client-none (posts url (h ∷ head) text) stale c (e, e') f = cc
  call_client-none (posts url [] text) stale c (e, e') f =
      rw (e, perform) (rw (e', perform) (rw (f, perform)))

  missing-none : (c : Client) → c.has_handle ≡ true → missing c ≡ []
  missing-none c e = rw e

  call_client-answer :
      (call : Call) (stale : Bool) (c : Client)
      → Ready stale c
      → faults stale call ≡ false
      → (c' : Client) × (call_client call c ≡ some (answer c.transfers call, c'))
        × Ready (stale_after call) c'
        × (c'.transfers ≡ c.transfers + 1)
  unfolding call_client faults stale_after url_get url_post answer request_of slist reported
  call_client-answer (gets url) stale c (e, e') f =
      let named = record c {
        method = get;
        url = url;
        header_option = listed (codes "name:francis" ∷ []);
        buff = [];
      } in
      (
        _,
        ap (λ o. with_buffer (told [] get (set_headers unset o)))
            (perform-listed empty (codes "name:francis" ∷ []) named e refl),
        (e, refl),
        refl,
      )
  call_client-answer (posts url (h ∷ head) text) stale c (e, e') f =
      let named = record c {
        method = post;
        url = url;
        header_option = listed (slist (h ∷ head));
        buff = [];
      } in
      (
        _,
        ap (λ o. with_buffer (told (missing c) post (set_headers freed o)))
              (perform-listed (post_body text) (slist (h ∷ head)) named e refl)
            ∙ ap
                (λ before. with_buffer (
                  told before post
                    (set_headers freed (some (sent (post_body text) (slist (h ∷ head)) named)))))
                (missing-none c e),
        (e, refl),
        refl,
      )
  call_client-answer (posts url [] text) stale c (e, e') f =
      let named = record c { method = post; url = url; buff = [] } in
      (
        _,
        ap (λ o. with_buffer (told (missing c) post o))
              (perform-unset (post_body text) named e (e' ∙ ap header_state f))
            ∙ ap (λ before. with_buffer (told before post (some (sent (post_body text) [] named))))
                (missing-none c e),
        (e, e' ∙ ap header_state f),
        refl,
      )

  unfoldable pub answers : ℕ → List Call → List Result
  answers n [] = []
  answers n (call ∷ calls) = answer n call ∷ answers (n + 1) calls

  pub run-answers :
      (calls : List Call) (stale : Bool) (c : Client)
      → Ready stale c
      → run calls c ≡ (if some_fault stale calls then none else some (answers c.transfers calls))
  unfolding run some_fault answers
  run-answers [] stale c ready = refl
  run-answers (call ∷ calls) stale c ready = elim (Bool-cases (faults stale call)) [
    | inl bad ↦ rw bad (rw (call_client-none call stale c ready bad, run))
    | inr good ↦
        let (c', done, ready', counted) = call_client-answer call stale c ready good in
        rw good (
          rw (done, run)
            (rw (run-answers calls (stale_after call) c' ready', counted, run)
              (elim (Bool-cases (some_fault (stale_after call) calls)) [
                | inl e ↦ rw e
                | inr e ↦ rw e
              ])))
  ]
