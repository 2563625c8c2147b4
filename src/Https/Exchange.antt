-- ===== src/Https/Exchange.antt =====
-- logger/firmware/include/HttpsExchange.h: one request and one response between the main loop and
-- the worker. An argument is the bytes of a C string, and `none` is a null pointer; a buffer is memory,
-- with what earlier contents have left in it.
use devices.Prelude.{
  ℕ, suc, ℤ, pos, ◌+◌, Bool, true, false, Option, some, none, List, [], ◌∷◌, ◌++◌, drop, length,
  ◌&&◌, not, ltb, if◌then◌else◌,
}

pub data State : Type 0 where
  idle requested complete : State

-- An array of bytes: those last written, a NUL, and those that stand behind it. All further ones are
-- zero.
pub record Buffer : Type 0 where
  pub used : List ℕ
  pub rest : List ℕ

abbrev pub memory : Buffer → List ℕ
memory b = b.used ++ (0 ∷ b.rest)

abbrev pub zeroed : Buffer
zeroed = record { used = []; rest = [] }

-- `strcpy` of a text: its bytes and the NUL take the place of as many bytes.
abbrev pub copy_text : List ℕ → Buffer → Buffer
copy_text text b = record { used = text; rest = drop (suc (length text)) (memory b) }

-- `buffer[0] = '\0'`
abbrev pub terminated : Buffer → Buffer
terminated b = record { used = []; rest = drop 1 (memory b) }

pub record Request : Type 0 where
  pub get : Bool
  pub url : Buffer
  pub payload : Buffer
  pub bearer : Buffer
  pub access_id : Buffer
  pub access_secret : Buffer

pub record Result : Type 0 where
  pub status : ℤ
  pub tls_error : ℤ
  pub duration_ms : ℕ
  pub reused : Bool
  pub permanent_rejection : Bool
  pub body : Buffer

pub record HttpsExchange : Type 0 where
  pub state : State
  pub request : Request
  pub result : Result

-- The arguments of `submit`.
pub record Arguments : Type 0 where
  pub get : Bool
  pub url : Option (List ℕ)
  pub payload : Option (List ℕ)
  pub bearer : Option (List ℕ)
  pub access_id : Option (List ℕ)
  pub access_secret : Option (List ℕ)

abbrev pub body_limit : ℕ
body_limit = 6144

abbrev pub is_idle : State → Bool
is_idle idle = true
is_idle _ = false

abbrev pub is_requested : State → Bool
is_requested requested = true
is_requested _ = false

abbrev pub is_complete : State → Bool
is_complete complete = true
is_complete _ = false

abbrev pub fits : Option (List ℕ) → ℕ → Bool
fits (some value) n = ltb (length value) n
fits none n = false

abbrev pub text : Option (List ℕ) → List ℕ
text (some value) = value
text none = []

abbrev pub all_fit : Arguments → Bool
all_fit a =
    fits a.url 513
    && (fits a.payload (body_limit + 1)
        && (fits a.bearer 2049 && (fits a.access_id 257 && fits a.access_secret 513)))

abbrev pub copied : Arguments → Request → Request
copied a r = record {
  get = a.get;
  url = copy_text (text a.url) r.url;
  payload = copy_text (text a.payload) r.payload;
  bearer = copy_text (text a.bearer) r.bearer;
  access_id = copy_text (text a.access_id) r.access_id;
  access_secret = copy_text (text a.access_secret) r.access_secret;
}

unfoldable pub submit : Arguments → HttpsExchange → Bool × HttpsExchange
submit a x =
    if not (is_idle x.state)
    then (false, x)
    else if not (all_fit a)
    then (false, x)
    else (true, record x { request = copied a x.request; state = requested })

abbrev pub request : HttpsExchange → Option Request
request x = if is_requested x.state then some x.request else none

abbrev pub complete_with : Result → HttpsExchange → HttpsExchange
complete_with r x = record x { result = r; state = complete }

abbrev pub result : HttpsExchange → Option Result
result x = if is_complete x.state then some x.result else none

abbrev pub wiped : Request → Request
wiped r = record r {
  url = zeroed;
  payload = zeroed;
  bearer = zeroed;
  access_id = zeroed;
  access_secret = zeroed;
}

abbrev pub wiped_body : Result → Result
wiped_body r = record r { body = zeroed }

unfoldable pub release : HttpsExchange → HttpsExchange
release x = record x { request = wiped x.request; result = wiped_body x.result; state = idle }

abbrev pub fresh : HttpsExchange
fresh = record {
  state = idle;
  request = record {
    get = false;
    url = zeroed;
    payload = zeroed;
    bearer = zeroed;
    access_id = zeroed;
    access_secret = zeroed;
  };
  result = record {
    status = pos 0;
    tls_error = pos 0;
    duration_ms = 0;
    reused = false;
    permanent_rejection = false;
    body = zeroed;
  };
}
