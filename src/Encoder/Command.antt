-- ===== src/Encoder/Command.antt =====
-- playgate-host/internal/encoder/ffmpeg/args.go and codec.go: ffmpeg's argument vector. The texts of
-- numbers, `strconv.Itoa` and `fmt.Sprintf("%dx%d", w, h)`, are parameters.
use playgate.Common.{
  ◌≡◌, ◌∙◌, refl, sym, subst, ap, Bool, true, false, not, ◌&&◌, ◌||◌, String, List, [], ◌∷◌, ◌++◌,
  append_assoc, if◌then◌else◌, arith,
}
use playgate.Common.Int.{ℤ, pos, ◌≤ℤ◌, leb_ℤ, eqb_ℤ, eq_of_parts}
use playgate.Common.Result.{Result, ok, err, ◌>>=◌}
use playgate.Core.{PixelFormat, format_unknown, format_yuyv, format_mjpeg, format_nv12}
use playgate.Encoder.Args.{
  Codec, lib_x264, v4l2m2m, vaapi, nvenc, default_vaapi_device, Options, OptionsError,
  input_format_error, normalise, validate, check_format, or_text, or_codec, or_positive, frame_size,
}
use playgate.Encoder.{Encoder, set_bitrate, div_duration}

pub record Format : Type 0 where
  pub itoa : ℤ → String
  pub size_text : ℤ → ℤ → String

-- Half of a number, rounded towards 0.
unfoldable pub half : ℤ → ℤ
unfolding div_duration
half n = div_duration n 2

module _ (f : Format) where
  -- `rateControlArgs`.
  unfoldable pub rate_control_args : Options → List String
  unfolding half
  rate_control_args o =
      let br = f.itoa o.bitrate in
      "-b:v" ∷ br ∷ "-maxrate" ∷ br ∷ "-bufsize" ∷ f.itoa (half o.bitrate) ∷ []

  -- `gopArgs`.
  unfoldable pub gop_args : Options → List String
  gop_args o = let g = f.itoa o.gop_size in "-g" ∷ g ∷ "-keyint_min" ∷ g ∷ "-bf" ∷ "0" ∷ []

  -- What `OutputArgs` of each codec puts before the shared flags, and behind them.
  unfoldable pub codec_args : Codec → Options → List String
  codec_args lib_x264 o = "-c:v" ∷ "libx264" ∷ "-preset" ∷ o.preset ∷ "-tune" ∷ o.tune ∷ []
  codec_args v4l2m2m o = "-c:v" ∷ "h264_v4l2m2m" ∷ []
  codec_args (vaapi device) o = "-c:v" ∷ "h264_vaapi" ∷ []
  codec_args nvenc o =
      "-c:v" ∷ "h264_nvenc" ∷ "-preset" ∷ "p1" ∷ "-tune" ∷ "ll" ∷ "-rc" ∷ "cbr" ∷ "-zerolatency"
      ∷ "1" ∷ "-delay" ∷ "0" ∷ []

  unfoldable pub pixel_args : Codec → List String
  pixel_args lib_x264 = "-pix_fmt" ∷ "yuv420p" ∷ "-slices" ∷ "1" ∷ []
  pixel_args v4l2m2m = "-pix_fmt" ∷ "yuv420p" ∷ []
  pixel_args (vaapi device) = "-rc_mode" ∷ "CBR" ∷ []
  pixel_args nvenc = "-pix_fmt" ∷ "yuv420p" ∷ []

  -- `OutputArgs`.
  unfoldable pub output_args : Codec → Options → List String
  unfolding codec_args rate_control_args gop_args pixel_args
  output_args c o = codec_args c o ++ rate_control_args o ++ gop_args o ++ pixel_args c

  -- `InitArgs` and `FilterArgs`, which VA-API alone has.
  unfoldable pub init_args : Codec → List String
  init_args (vaapi device) = "-vaapi_device" ∷ or_text device default_vaapi_device ∷ []
  init_args other = []

  unfoldable pub filter_args : Codec → List String
  filter_args (vaapi device) = "-vf" ∷ "format=nv12,hwupload" ∷ []
  filter_args other = []

  unfoldable pub raw_args : String → Options → List String
  raw_args name o =
      "-f"
      ∷ "rawvideo"
      ∷ "-pixel_format"
      ∷ name
      ∷ "-video_size"
      ∷ f.size_text o.width o.height
      ∷ "-framerate"
      ∷ f.itoa o.fps
      ∷ "-i"
      ∷ "pipe:0"
      ∷ []

  -- `inputArgs`.
  unfoldable pub input_args : PixelFormat → Options → Result OptionsError (List String)
  unfolding raw_args
  input_args format_yuyv o = ok (raw_args "yuyv422" o)
  input_args format_nv12 o = ok (raw_args "nv12" o)
  input_args format_mjpeg o =
      ok ("-f" ∷ "mjpeg" ∷ "-framerate" ∷ f.itoa o.fps ∷ "-i" ∷ "pipe:0" ∷ [])
  input_args format_unknown o = err input_format_error

  abbrev pub first_args : List String
  first_args = "-hide_banner" ∷ "-loglevel" ∷ "error" ∷ "-fflags" ∷ "nobuffer" ∷ []

  abbrev pub last_args : List String
  last_args = "-f" ∷ "h264" ∷ "-bsf:v" ∷ "h264_mp4toannexb" ∷ "pipe:1" ∷ []

  unfoldable pub assemble : Codec → Options → List String → List String
  unfolding init_args filter_args output_args
  assemble c o input =
      first_args ++ (init_args c ++ (input ++ (filter_args c ++ (output_args c o ++ last_args))))

  -- `BuildArgs`.
  unfoldable pub build_args : Options → Result OptionsError (List String)
  unfolding normalise validate input_args assemble
  build_args opts =
      let o : Options = normalise opts in
      validate o >>= λ _.
      input_args o.input_format o >>= λ input. ok (assemble (or_codec o.codec) o input)

-- A flag and its value stand in a vector.
abbrev pub HasFlag : String → String → List String → Type 0
HasFlag flag value args =
    (before : List String) × (after : List String) × (args ≡ before ++ flag ∷ value ∷ after)

HasFlag-append :
    (flag value : String) (xs ys : List String)
    → HasFlag flag value ys
    → HasFlag flag value (xs ++ ys)
HasFlag-append flag value xs ys (before, after, e) =
    (xs ++ before, after, ap (λ l. xs ++ l) e ∙ sym (append_assoc xs before (flag ∷ value ∷ after)))

chosen :
    (low same : Bool) (x old : ℤ)
    → low ≡ false
    → (same ≡ true → old ≡ x)
    → (if not low && not same then x else old) ≡ x
chosen true same x old e f = absurd cc
chosen false true x old e f = f refl
chosen false false x old e f = refl

passes_both {ℓ} :
    {A : Type ℓ} (bad : Bool) (why : OptionsError) (r : Result OptionsError A) {a : A}
    → (if bad then err why else r) ≡ ok a
    → r ≡ ok a
passes_both true why r e = absurd cc
passes_both false why r e = e

or_positive-positive : (x d : ℤ) → pos 1 ≤ℤ x → or_positive x d ≡ x
or_positive-positive x d h = ground arith

eqb_ℤ-eq : (a b : ℤ) → eqb_ℤ a b ≡ true → a ≡ b
eqb_ℤ-eq a b e = eq_of_parts a b (ground arith)

set_bitrate-bitrate :
    (e : Encoder) (bps : ℤ) → pos 1 ≤ℤ bps → (normalise (set_bitrate e bps).opts).bitrate ≡ bps
unfolding set_bitrate normalise
set_bitrate-bitrate e bps h =
    let low : leb_ℤ bps (pos 0) ≡ false = ground arith in
    ap (λ x. or_positive x (pos 6_000_000))
      (chosen (leb_ℤ bps (pos 0)) (eqb_ℤ e.opts.bitrate bps) bps e.opts.bitrate low
        (eqb_ℤ-eq e.opts.bitrate bps))
    ∙ or_positive-positive bps (pos 6_000_000) h

module _ (f : Format) where
  output_args-rate :
      (c : Codec) (o : Options) (tail' : List String)
      → HasFlag "-b:v" (f.itoa o.bitrate) (output_args f c o ++ tail')
  unfolding output_args rate_control_args codec_args
  output_args-rate lib_x264 o tail' = (codec_args f lib_x264 o, _, refl)
  output_args-rate v4l2m2m o tail' = (codec_args f v4l2m2m o, _, refl)
  output_args-rate (vaapi d) o tail' = (codec_args f (vaapi d) o, _, refl)
  output_args-rate nvenc o tail' = (codec_args f nvenc o, _, refl)

  assemble-rate :
      (c : Codec) (o : Options) (input : List String)
      → HasFlag "-b:v" (f.itoa o.bitrate) (assemble f c o input)
  unfolding assemble
  assemble-rate c o input = HasFlag-append _ _ (first_args f) _ (
      HasFlag-append _ _ (init_args f c) _ (
        HasFlag-append _ _ input _
          (HasFlag-append _ _ (filter_args f c) _ (output_args-rate c o (last_args f)))))

  input_args-ok :
      (format : PixelFormat) (o : Options)
      → check_format format ≡ ok tt
      → (input : List String) × (input_args f format o ≡ ok input)
  unfolding input_args check_format
  input_args-ok format_unknown o e = absurd cc
  input_args-ok format_yuyv o e = (_, refl)
  input_args-ok format_nv12 o e = (_, refl)
  input_args-ok format_mjpeg o e = (_, refl)

  -- With options that pass their checks, after `SetBitrate` of a positive bitrate the arguments of
  -- the next launch can be built, and give ffmpeg this bitrate, whichever the codec.
  pub set_bitrate-build_args :
      (e : Encoder) (bps : ℤ)
      → pos 1 ≤ℤ bps
      → validate (normalise e.opts) ≡ ok tt
      → (args : List String) × (build_args f (set_bitrate e bps).opts ≡ ok args)
        × HasFlag "-b:v" (f.itoa bps) args
  unfolding build_args set_bitrate normalise validate
  set_bitrate-build_args e bps h valid =
      let o : Options = normalise (set_bitrate e bps).opts in
      let v : validate o ≡ ok tt = valid in
      let format : check_format o.input_format ≡ ok tt =
        passes_both (leb_ℤ o.width (pos 0) || leb_ℤ o.height (pos 0)) frame_size
          (check_format o.input_format) valid in
      let input : (input : List String) × (input_args f o.input_format o ≡ ok input) =
        input_args-ok o.input_format o format in
      let built : build_args f (set_bitrate e bps).opts
          ≡ ok (assemble f (or_codec o.codec) o input.0) =
        ap
          (λ r. r >>= λ _.
            input_args f o.input_format o >>= λ i. ok (assemble f (or_codec o.codec) o i))
          v
        ∙ ap (λ r. r >>= λ i. ok (assemble f (or_codec o.codec) o i)) input.1 in
      (
        assemble f (or_codec o.codec) o input.0,
        built,
        subst (λ b. HasFlag "-b:v" (f.itoa b) (assemble f (or_codec o.codec) o input.0))
            (set_bitrate-bitrate e bps h) (assemble-rate (or_codec o.codec) o input.0),
      )
