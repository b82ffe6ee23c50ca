-- ===== src/Capture/Negotiation.antt =====
-- The format that is negotiated, and the calls of the device.
use playgate.Common.{
  ℕ, ◌≡◌, ◌∙◌, refl, ap, subst, Bool, true, false, not, Option, none, some, List, [], ◌∷◌, ◌++◌,
  ◌==◌, All, if_cases, ==_iff,
}
use playgate.Common.Bits.{bits_or}
use playgate.Common.Result.{Result, ok, err}
use playgate.Core.{PixelFormat, format_unknown, format_yuyv, format_mjpeg, format_nv12}
use playgate.Capture.{
  four_cc, four_cc_yuyv, four_cc_mjpeg, four_cc_nv12, four_cc_to_pixel_format,
  pixel_format_to_four_cc, or_default, take_if, negotiate_loop, negotiate_format, Actual, Answers,
  DeviceCall, device_open, set_format, set_frame_rate, init_buffers, stream_on, device_close,
  StartError, Source, Outcome, start_streaming, start_formatted, start_negotiated, start_queried,
  start,
}

-- Whether a device offers a format.
abbrev pub offered_code : (ℕ → Bool) → Option ℕ → Bool
offered_code available none = false
offered_code available (some code) = available code

abbrev pub offers : (ℕ → Bool) → PixelFormat → Bool
offers available f = offered_code available (pixel_format_to_four_cc f)

-- A format is the first of a list that a device offers, under its code.
pub record FirstOffered (available : ℕ → Bool) (fs : List PixelFormat) (f : PixelFormat) (code : ℕ)
    : Type 0 where
  pub before : List PixelFormat
  pub after : List PixelFormat
  pub split : fs ≡ before ++ f ∷ after
  pub passed_over : All (λ g. offers available g ≡ false) before
  pub offered : available code ≡ true
  pub coded : pixel_format_to_four_cc f ≡ some code

some_injective : {a b : ℕ} → some a ≡ some b → a ≡ b
some_injective e = cc

is_true : (b : Bool) → not b ≡ false → b ≡ true
is_true true e = refl
is_true false e = absurd cc

-- What the negotiation answers.
abbrev pub Negotiated : (ℕ → Bool) → List PixelFormat → Option (PixelFormat × ℕ) → Type 0
Negotiated available fs none = All (λ g. offers available g ≡ false) fs
Negotiated available fs (some (f, code)) = FirstOffered available fs f code

skip-Negotiated :
    (available : ℕ → Bool) (g : PixelFormat) (fs : List PixelFormat) (r : Option (PixelFormat × ℕ))
    → offers available g ≡ false
    → Negotiated available fs r
    → Negotiated available (g ∷ fs) r
skip-Negotiated available g fs none e h = (e, h)
skip-Negotiated available g fs (some (f, code)) e h = record {
  before = g ∷ h.before;
  after = h.after;
  split = ap (λ l. g ∷ l) h.split;
  passed_over = (e, h.passed_over);
  offered = h.offered;
  coded = h.coded;
}

take_if-Negotiated :
    (available : ℕ → Bool) (g : PixelFormat) (fs : List PixelFormat) (code : Option ℕ)
    (r : Option (PixelFormat × ℕ))
    → pixel_format_to_four_cc g ≡ code
    → Negotiated available fs r
    → Negotiated available (g ∷ fs) (take_if code g available r)
take_if-Negotiated available g fs none r e h =
    skip-Negotiated available g fs r (ap (offered_code available) e) h
take_if-Negotiated available g fs (some code) r e h =
    if_cases (Negotiated available (g ∷ fs)) (available code) (some (g, code)) r
      (λ t. record {
        before = [];
        after = fs;
        split = refl;
        passed_over = tt;
        offered = t;
        coded = e;
      })
      (λ f. skip-Negotiated available g fs r (ap (offered_code available) e ∙ f) h)

negotiate_loop-Negotiated :
    (available : ℕ → Bool) (fs : List PixelFormat)
    → Negotiated available fs (negotiate_loop fs available)
unfolding negotiate_loop
negotiate_loop-Negotiated available [] = tt
negotiate_loop-Negotiated available (f ∷ fs) =
    take_if-Negotiated available f fs (pixel_format_to_four_cc f) (negotiate_loop fs available) refl
      (negotiate_loop-Negotiated available fs)

-- The code of a format stands for the format.
to_pixel_format-code :
    (f : PixelFormat) (code : ℕ)
    → pixel_format_to_four_cc f ≡ some code
    → four_cc_to_pixel_format code ≡ some f
unfolding pixel_format_to_four_cc four_cc_to_pixel_format four_cc bits_or
to_pixel_format-code format_unknown code e = absurd cc
to_pixel_format-code format_yuyv code e =
    let same : four_cc_yuyv ≡ code = some_injective e in
    subst (λ c. four_cc_to_pixel_format c ≡ some format_yuyv) same refl
to_pixel_format-code format_mjpeg code e =
    let same : four_cc_mjpeg ≡ code = some_injective e in
    subst (λ c. four_cc_to_pixel_format c ≡ some format_mjpeg) same refl
to_pixel_format-code format_nv12 code e =
    let same : four_cc_nv12 ≡ code = some_injective e in
    subst (λ c. four_cc_to_pixel_format c ≡ some format_nv12) same refl

-- Whether the device of this start is open after its calls.
abbrev pub open_after : Bool → List DeviceCall → Bool
open_after b [] = b
open_after b (device_open ∷ calls) = open_after true calls
open_after b (device_close ∷ calls) = open_after false calls
open_after b (set_format w h c ∷ calls) = open_after b calls
open_after b (set_frame_rate n ∷ calls) = open_after b calls
open_after b (init_buffers n ∷ calls) = open_after b calls
open_after b (stream_on ∷ calls) = open_after b calls

-- A source that streams the first preferred format that its device offered.
pub record Streams (s : Source) (a : Answers) (s' : Source) (calls : List DeviceCall) : Type 0 where
  pub available : ℕ → Bool
  pub queried : a.query ≡ some available
  pub first : FirstOffered available (or_default s.config.preferred_formats) s'.pixel_format s'.code
  pub device : s'.has_device ≡ true
  pub is_open : open_after false calls ≡ true
  pub understood : four_cc_to_pixel_format s'.code ≡ some s'.pixel_format
  pub actual : Actual
  pub answered : a.format ≡ some actual
  pub taken : actual.pixel_code ≡ s'.code
  pub width : s'.width ≡ actual.width
  pub height : s'.height ≡ actual.height

abbrev pub Started :
    Source → Answers → Source → List DeviceCall → Result StartError (Unit {0}) → Type 0
Started s a s' calls (ok u) = Streams s a s' calls
Started s a s' calls (err e) = (s' ≡ s) × (open_after false calls ≡ false)

abbrev Fits : Source → Answers → Outcome → Type 0
Fits s a o = Started s a o.0 o.1 o.2

-- From an opened device on.
start_streaming-Fits :
    (s : Source) (a : Answers) (available : ℕ → Bool) (f : PixelFormat) (code : ℕ) (actual : Actual)
    → a.query ≡ some available
    → a.format ≡ some actual
    → actual.pixel_code ≡ code
    → FirstOffered available (or_default s.config.preferred_formats) f code
    → Fits s a (start_streaming s a f code actual)
unfolding start_streaming
start_streaming-Fits s a available f code actual q p t n =
    if_cases (Fits s a) (not a.buffers) _ _ (λ _. (refl, refl))
      (λ _.
        if_cases (Fits s a) (not a.streams) _ _ (λ _. (refl, refl))
          (λ _. record {
            available = available;
            queried = q;
            first = n;
            device = refl;
            is_open = refl;
            understood = to_pixel_format-code f code n.coded;
            actual = actual;
            answered = p;
            taken = t;
            width = refl;
            height = refl;
          }))

start_formatted-Fits :
    (s : Source) (a : Answers) (available : ℕ → Bool) (f : PixelFormat) (code : ℕ)
    (format : Option Actual)
    → a.query ≡ some available
    → a.format ≡ format
    → FirstOffered available (or_default s.config.preferred_formats) f code
    → Fits s a (start_formatted s a f code format)
unfolding start_formatted
start_formatted-Fits s a available f code none q p n = (refl, refl)
start_formatted-Fits s a available f code (some actual) q p n =
    if_cases (Fits s a) (not (actual.pixel_code == code)) _ (start_streaming s a f code actual)
      (λ _. (refl, refl))
      (λ e.
        start_streaming-Fits s a available f code actual q p
          ((==_iff actual.pixel_code code).0 (is_true _ e)) n)

start_negotiated-Fits :
    (s : Source) (a : Answers) (available : ℕ → Bool)
    → a.query ≡ some available
    → (r : Option (PixelFormat × ℕ))
    → Negotiated available (or_default s.config.preferred_formats) r
    → Fits s a (start_negotiated s a r)
unfolding start_negotiated
start_negotiated-Fits s a available q none n = (refl, refl)
start_negotiated-Fits s a available q (some (f, code)) n =
    if_cases (Fits s a) (not a.opens) _ (start_formatted s a f code a.format) (λ _. (refl, refl))
      (λ _. start_formatted-Fits s a available f code a.format q refl n)

or_default-twice : (fs : List PixelFormat) → or_default (or_default fs) ≡ or_default fs
or_default-twice [] = refl
or_default-twice (f ∷ fs) = refl

start_queried-Fits :
    (s : Source) (a : Answers) (query : Option (ℕ → Bool))
    → a.query ≡ query
    → Fits s a (start_queried s a query)
unfolding start_queried negotiate_format
start_queried-Fits s a none q = (refl, refl)
start_queried-Fits s a (some available) q =
    let preferred = or_default s.config.preferred_formats in
    start_negotiated-Fits s a available q (negotiate_format preferred available) (
      subst (λ fs. Negotiated available fs (negotiate_loop (or_default preferred) available))
        (or_default-twice s.config.preferred_formats)
        (negotiate_loop-Negotiated available (or_default preferred)))

-- Whatever the device answers: a start that fails leaves the source as it was and has closed the device
-- if it opened one, and
-- one that succeeds leaves the device open and streams the first of the preferred formats that the
-- device offered.
pub start-Started :
    (s : Source) (a : Answers) → Started s a (start s a).0 (start s a).1 (start s a).2
unfolding start
start-Started s a = start_queried-Fits s a a.query refl
