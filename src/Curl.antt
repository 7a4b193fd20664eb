-- ===== src/Curl.antt =====
-- 003/curl_builder.cpp: curl_t, a client on one libcurl handle. What the network does with a request
-- is a parameter, by the number of the transfer: a code, the blocks that libcurl hands to the
-- callback, and the text of an error.
pub mod Dump
pub mod Session
mod Tests
use auxiliary_tool.ConfigFile.{c_string}
use auxiliary_tool.Common.{
  ℕ, ◌+◌, ◌-◌, Bool, true, false, not, ◌&&◌, Option, none, some, List, [], ◌∷◌, ◌++◌, Bytes, codes,
  ℤ, succeeded, pos, minus_one, ◌==◌, if◌then◌else◌, length,
}

pub data Method : Type 0 where
  get post : Method

-- CURLOPT_HTTPHEADER: a pointer to a list, which may have been freed.
pub data Headers : Type 0 where
  unset : Headers
  listed : List Bytes → Headers
  freed : Headers

pub data Body : Type 0 where
  empty : Body
  fields : Bytes → Body
  form : List (Bytes × Bytes) → Body

-- What a transfer is made of.
pub record Request : Type 0 where
  pub method : Method
  pub url : Bytes
  pub headers : List Bytes
  pub body : Body

-- curl_t, with the options of its handle that the calls set. `handles` and `inits` are what libcurl
-- holds: the handles not cleaned up, and the calls of curl_global_init without their cleanup.
-- `transfers` counts the transfers made.
pub record Client : Type 0 where
  pub has_handle : Bool
  pub method : Method
  pub url : Bytes
  pub header_option : Headers
  pub buff : Bytes
  pub err_msg : Bytes
  pub handles : ℕ
  pub inits : ℕ
  pub transfers : ℕ

abbrev pub fresh : Client
fresh = record {
  has_handle = false;
  method = get;
  url = [];
  header_option = unset;
  buff = [];
  err_msg = [];
  handles = 0;
  inits = 0;
  transfers = 0;
}

-- curl_global_init and curl_easy_init succeed or not.
unfoldable pub init : Bool → Bool → Client → ℤ × Client
init global_ok easy_ok c =
    if not global_ok
    then (minus_one, c)
    else if not easy_ok
    then (minus_one, record c { has_handle = false; inits = c.inits + 1 })
    else (
      pos 0,
      record c {
        has_handle = true;
        header_option = unset;
        handles = c.handles + 1;
        inits = c.inits + 1;
      },
    )

-- The destructor. A global cleanup with no init before it does nothing.
unfoldable pub destroy : Client → Client
destroy c = record c {
  has_handle = false;
  handles = if c.has_handle then c.handles - 1 else c.handles;
  inits = c.inits - 1;
}

-- The callback: what it returns, and the buffer behind `userdata`.
unfoldable pub receive_data : Bytes → Bytes → ℕ × Bytes
receive_data block buff = (length block, buff ++ block)

unfoldable pub receive_all : List Bytes → Bytes → Bytes
receive_all [] buff = buff
receive_all (block ∷ blocks) buff = receive_all blocks (receive_data block buff).1

-- The form that url_post sends where it is given no data.
abbrev pub default_form : Body
default_form =
    form ((codes "data", codes "This is the field data") ∷ (codes "name", codes "francis") ∷ [])

-- What url_post sends: libcurl is given a C string with no size, which ends at its first zero byte.
abbrev pub post_body : Bytes → Body
post_body text = if 0 == length text then default_form else fields (c_string text)

-- curl_slist_append copies C strings.
unfoldable pub slist : List Bytes → List Bytes
slist [] = []
slist (h ∷ head) = c_string h ∷ slist head

abbrev pub Network : Type 0
Network = ℕ → Request → ℤ × List Bytes × Bytes

-- The lines on stdout.
pub data ClientLine : Type 0 where
  no_handle perform_error : ClientLine
  error_text : Bytes → ClientLine
  post_length get_length : ℕ → ClientLine

-- What a call prints behind its transfer: only url_get prints the text of an error.
unfoldable pub reported : Method → ℤ → Bytes → Bytes → List ClientLine
reported get ret err buff =
    (if succeeded ret then [] else perform_error ∷ error_text err ∷ [])
    ++ (get_length (length buff) ∷ [])
reported post ret err buff =
    (if succeeded ret then [] else perform_error ∷ []) ++ (post_length (length buff) ∷ [])

abbrev pub told :
    List ClientLine → Method → Option (ℤ × Client) → Option (ℤ × List ClientLine × Client)
told before method none = none
told before method (some (ret, c)) = some (ret, before ++ reported method ret c.err_msg c.buff, c)

-- What becomes of the option when the list that it points to is freed, or it is set to NULL.
abbrev pub set_headers : Headers → Option (ℤ × Client) → Option (ℤ × Client)
set_headers h none = none
set_headers h (some (ret, c)) = some (ret, record c { header_option = h })

abbrev pub missing : Client → List ClientLine
missing c = if c.has_handle then [] else no_handle ∷ []

module _ (network : Network) where
  -- curl_easy_perform, and what the calls return. To follow a freed list of headers is a fault. With
  -- no handle an error is returned.
  unfoldable pub perform : Body → Client → Option (ℤ × Client)
  perform body c =
      let send = λ (headers : List Bytes).
        (let (code, blocks, err) =
            network c.transfers
              (record { method = c.method; url = c.url; headers = headers; body = body }) in
          some (
            if succeeded code then pos 0 else minus_one,
            record c {
              buff = receive_all blocks c.buff;
              err_msg = err;
              transfers = c.transfers + 1;
            },
          )) in
      if not c.has_handle
      then some (minus_one, c)
      else elim c.header_option [ unset ↦ send [] | listed headers ↦ send headers | freed ↦ none ]

  -- With no handle libcurl drops the options; those recorded here are not used then.
  unfoldable pub url_get : Bytes → Client → Option (ℤ × List ClientLine × Client)
  url_get url c =
      let named = record c {
        method = get;
        url = url;
        header_option = listed (codes "name:francis" ∷ []);
        buff = [];
      } in
      told [] get (set_headers unset (perform empty named))

  -- A call with no headers leaves the option as the last call has left it.
  unfoldable pub url_post :
      Bytes → List Bytes → Bytes → Client → Option (ℤ × List ClientLine × Client)
  url_post url [] text c =
      let named = record c { method = post; url = url; buff = [] } in
      told (missing c) post (perform (post_body text) named)
  url_post url (h ∷ head) text c =
      let named = record c {
        method = post;
        url = url;
        header_option = listed (slist (h ∷ head));
        buff = [];
      } in
      told (missing c) post (set_headers freed (perform (post_body text) named))

-- A use of the client, one call after the other.
pub data Call : Type 0 where
  gets : Bytes → Call
  posts : Bytes → List Bytes → Bytes → Call

-- main of 003/main.cpp, behind init.
abbrev pub main_calls : List Call
main_calls =
    posts (codes "http://up.qiniu.com/") [] []
    ∷ gets (codes "http://www.asciima.com")
    ∷ posts (codes "http://up.qiniu.com/") [] []
    ∷ gets (codes "http://www.asciima.com")
    ∷ []
