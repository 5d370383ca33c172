-- ===== src/Config/Validation.antt =====
-- internal/config/config.go: what the validation promises, and that every way to obtain a
-- configuration keeps the promise.
use castle_ops_client.Prelude.{
  String, ◌≡◌, ◌≢◌, ◌↔◌, ◌⊎◌, inl, inr, refl, true, false, none, arith, eq_iff, str_eq, err, ok,
  Bool, not, List, [], ◌∷◌, if◌then◌else◌, Error, Result, Bool-cases,
}
use castle_ops_client.Prelude.Int.{ℤ, pos, negsuc, positive, negative, pos_part}
use castle_ops_client.Config.{
  Config, Platform, Paths, Reading, unreadable, not_decoded, decoded, validate, new_default,
  expand_paths, load, load_or_default, get, one_of, cache_types, valid_levels, formats,
  with_log_path, with_cache_path, expanded, checked, ok_or,
}

abbrev pub OneOf : String → List String → Type 0
OneOf s [] = ⊥
OneOf s (x ∷ xs) = (s ≡ x) ⊎ OneOf s xs

-- The configurations that the agent can run with.
pub record IsValid (c : Config) : Type 0 where
  pub url : c.server.url ≢ ""
  pub timeout : positive c.server.timeout ≡ true
  pub interval : positive c.heartbeat.interval ≡ true
  pub collection : positive c.metrics.collection_interval ≡ true
  pub batch : positive c.metrics.batch_size ≡ true
  pub retention : c.metrics.retention_days ≡ pos (pos_part c.metrics.retention_days)
  pub cache : OneOf c.cache.type cache_types
  pub level : OneOf c.logging.level valid_levels
  pub format : OneOf c.logging.format formats

one_of_sound : (s : String) (l : List String) → one_of s l ≡ true → OneOf s l
one_of_sound s [] h = absurd (ground arith)
one_of_sound s (x ∷ xs) h = elim (Bool-cases (str_eq s x)) [
  | inl e ↦ inl ((eq_iff s x).0 e)
  | inr e ↦ inr (one_of_sound s xs (ground arith))
]

one_of_complete : (s : String) (l : List String) → OneOf s l → one_of s l ≡ true
one_of_complete s [] h = absurd h
one_of_complete s (x ∷ xs) (inl e) = ground (arith, eq_iff s x)
one_of_complete s (x ∷ xs) (inr h) = ground (arith, one_of_complete s xs h)

-- A check that did not fail.
passed :
    (b : Bool) (e : Error) (r : Result (Unit {0}))
    → (if b then err e else r) ≡ ok tt
    → (b ≡ false) × (r ≡ ok tt)
passed true e r h = absurd (ground arith)
passed false e r h = (refl, h)

not-false : (b : Bool) → not b ≡ false → b ≡ true
not-false b h = ground arith

not_negative : (n : ℤ) → negative n ≡ false → n ≡ pos (pos_part n)
not_negative (pos n) h = refl
not_negative (negsuc n) h = absurd (ground arith)

blank_false : (s : String) → str_eq s "" ≡ false → s ≢ ""
blank_false s h e = ground (arith, (eq_iff s "").1 e)

validate_sound : (c : Config) → validate c ≡ ok tt → IsValid c
unfolding validate
validate_sound c h =
    let (url, h1) = passed _ _ _ h in
    let (timeout, h2) = passed _ _ _ h1 in
    let (interval, h3) = passed _ _ _ h2 in
    let (collection, h4) = passed _ _ _ h3 in
    let (batch, h5) = passed _ _ _ h4 in
    let (retention, h6) = passed _ _ _ h5 in
    let (type, h7) = passed _ _ _ h6 in
    let (level, h8) = passed _ _ _ h7 in
    let (format, h9) = passed _ _ _ h8 in
    record {
      url = blank_false c.server.url url;
      timeout = not-false _ timeout;
      interval = not-false _ interval;
      collection = not-false _ collection;
      batch = not-false _ batch;
      retention = not_negative _ retention;
      cache = one_of_sound _ cache_types (not-false _ type);
      level = one_of_sound _ valid_levels (not-false _ level);
      format = one_of_sound _ formats (not-false _ format);
    }

not_blank : (s : String) → s ≢ "" → str_eq s "" ≡ false
not_blank s h = ground (arith, eq_iff s "")

validate_complete : (c : Config) → IsValid c → validate c ≡ ok tt
unfolding validate
validate_complete c v =
    rw
      (
        not_blank c.server.url v.url,
        v.timeout,
        v.interval,
        v.collection,
        v.batch,
        v.retention,
        one_of_complete _ cache_types v.cache,
        one_of_complete _ valid_levels v.level,
        one_of_complete _ formats v.format,
      )
      refl

-- The validation accepts a configuration exactly if its URL is not empty, its durations and its
-- batch size are positive, its retention is not negative, and its cache type, log level and log
-- format are among the ones that are allowed.
pub validate-IsValid : (c : Config) → (validate c ≡ ok tt) ↔ IsValid c
validate-IsValid c = (validate_sound c, validate_complete c)

new_default-IsValid : (os : Platform) → IsValid (new_default os)
unfolding new_default
new_default-IsValid os = validate_sound (new_default os) (unfold validate in refl)

-- What holds of a configuration, if there is one.
abbrev OnOk : Result Config → Type 0
OnOk (ok c) = IsValid c
OnOk (err e) = Unit

with_paths :
    (c : Config) (path : String)
    → IsValid c
    → IsValid (record c { cache = record c.cache { path = path } })
with_paths c path v = record {
  url = v.url;
  timeout = v.timeout;
  interval = v.interval;
  collection = v.collection;
  batch = v.batch;
  retention = v.retention;
  cache = v.cache;
  level = v.level;
  format = v.format;
}

with_log_path-OnOk : (c : Config) (r : Result String) → IsValid c → OnOk (with_log_path c r)
with_log_path-OnOk c (ok path) v = record {
  url = v.url;
  timeout = v.timeout;
  interval = v.interval;
  collection = v.collection;
  batch = v.batch;
  retention = v.retention;
  cache = v.cache;
  level = v.level;
  format = v.format;
}
with_log_path-OnOk c (err e) v = tt

with_cache_path-OnOk :
    (os : Paths) (c : Config) (r : Result String) → IsValid c → OnOk (with_cache_path os c r)
with_cache_path-OnOk os c (ok path) v = with_log_path-OnOk _ _ (with_paths c path v)
with_cache_path-OnOk os c (err e) v = tt

expanded-OnOk : (r : Result Config) → OnOk r → OnOk (expanded r)
expanded-OnOk (ok c) v = v
expanded-OnOk (err e) v = tt

checked-OnOk :
    (os : Paths) (c : Config) (r : Result (Unit {0})) → validate c ≡ r → OnOk (checked os c r)
unfolding expand_paths
checked-OnOk os c (ok u) h =
    expanded-OnOk (expand_paths os c) (with_cache_path-OnOk os c _ (validate_sound c h))
checked-OnOk os c (err e) h = tt

load-OnOk : (os : Paths) (r : Reading) → OnOk (load os r)
unfolding load
load-OnOk os (unreadable e) = tt
load-OnOk os (not_decoded e) = tt
load-OnOk os (decoded c) = checked-OnOk os c (validate c) refl

ok_or-IsValid : (d : Config) (r : Result Config) → IsValid d → OnOk r → IsValid (ok_or d r)
ok_or-IsValid d (ok c) v w = w
ok_or-IsValid d (err e) v w = v

-- Whatever viper reads and whatever the paths expand to, LoadOrDefault gives a configuration that is
-- valid, and so does Get where none has been set; Get gives the same one again on later calls.
pub get-IsValid :
    (platform : Platform) (os os' : Paths) (r r' : Reading)
    → IsValid (load_or_default platform os r)
      × IsValid (get platform os r none).0
      × ((get platform os' r' (get platform os r none).1).0 ≡ (get platform os r none).0)
unfolding get load_or_default
get-IsValid platform os os' r r' =
    let valid = ok_or-IsValid _ _ (new_default-IsValid platform) (load-OnOk os r) in
    (valid, valid, refl)
