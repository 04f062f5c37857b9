-- ===== src/Airgap/Text.antt =====
-- crates/aios-core/src/text_analysis.rs: what is kept of a text or a path. `to_lowercase` and
-- `path_extension` are functions of the standard library.
use di_pecs.Base.{
  ℕ, ◌+◌, String, Bool, true, false, List, [], ◌∷◌, ◌++◌, ◌&&◌, ◌||◌, not, leb, ◌==◌, any, all,
  length, if◌then◌else◌,
}
use di_pecs.Base.Text.{str_eq, is_empty_str, contains, concat, chars, member}
use di_pecs.Spec.Event.{ExtensionCategory, ScriptHint, SemanticHint, TextHint}

-- `lo..=hi`
abbrev pub within : ℕ → ℕ → ℕ → Bool
within lo hi ch = leb lo ch && leb ch hi

unfoldable pub is_emoji : ℕ → Bool
is_emoji ch =
    within 0x1F600 0x1F64F ch
    || within 0x1F300 0x1F5FF ch
    || within 0x1F680 0x1F6FF ch
    || within 0x1F900 0x1F9FF ch
    || within 0x2600 0x26FF ch
    || within 0x2700 0x27BF ch
    || within 0xFE00 0xFE0F ch
    || ch == 0x200D
    || within 0x1F1E0 0x1F1FF ch

-- the four arms of the `match` on a character
unfoldable pub is_latin : ℕ → Bool
is_latin ch = within 0x41 0x7A ch || within 0xC0 0x24F ch

unfoldable pub is_hanzi : ℕ → Bool
is_hanzi ch =
    within 0x4E00 0x9FFF ch
    || within 0x3400 0x4DBF ch
    || within 0x3000 0x303F ch
    || within 0xFF00 0xFFEF ch

unfoldable pub is_cyrillic : ℕ → Bool
is_cyrillic ch = within 0x400 0x4FF ch || within 0x500 0x52F ch

unfoldable pub is_arabic : ℕ → Bool
is_arabic ch =
    within 0x600 0x6FF ch
    || within 0x750 0x77F ch
    || within 0xFB50 0xFDFF ch
    || within 0xFE70 0xFEFF ch

-- the flags of the loop: has_latin, has_hanzi, has_cyrillic, has_arabic
pub record Scripts : Type 0 where
  pub has_latin : Bool
  pub has_hanzi : Bool
  pub has_cyrillic : Bool
  pub has_arabic : Bool

abbrev pub no_scripts : Scripts
no_scripts = record {
  has_latin = false;
  has_hanzi = false;
  has_cyrillic = false;
  has_arabic = false;
}

unfoldable pub note_char : Scripts → ℕ → Scripts
note_char s ch =
    if is_latin ch
    then record s { has_latin = true }
    else if is_hanzi ch
    then record s { has_hanzi = true }
    else if is_cyrillic ch
    then record s { has_cyrillic = true }
    else if is_arabic ch
    then record s { has_arabic = true }
    else s

unfoldable pub note_chars : Scripts → List ℕ → Scripts
note_chars s [] = s
note_chars s (ch ∷ rest) = note_chars (note_char s ch) rest

abbrev pub one_if : Bool → ℕ
one_if true = 1
one_if false = 0

-- the `match count`
unfoldable pub script_of : Scripts → ScriptHint
script_of s =
    let count =
      one_if s.has_latin + one_if s.has_hanzi + one_if s.has_cyrillic + one_if s.has_arabic in
    if count == 0
    then ScriptHint.unknown
    else if count == 1 && s.has_latin
    then ScriptHint.latin
    else if count == 1 && s.has_hanzi
    then ScriptHint.hanzi
    else if count == 1 && s.has_cyrillic
    then ScriptHint.cyrillic
    else if count == 1 && s.has_arabic
    then ScriptHint.arabic
    else ScriptHint.mixed

unfoldable pub analyze_text : String → TextHint
analyze_text text = record {
  length_chars = length (chars text);
  script =
      if is_empty_str text
      then ScriptHint.unknown
      else script_of (note_chars no_scripts (chars text));
  is_emoji_only = not (is_empty_str text) && all is_emoji (chars text);
}

unfoldable pub contains_any : String → List String → Bool
contains_any text keywords = any (λ kw. contains text kw) keywords

abbrev pub file_keywords : List String
file_keywords =
    "文件" ∷ "file" ∷ "pdf" ∷ "doc" ∷ "docx" ∷ "xls" ∷ "xlsx" ∷ "ppt" ∷ "pptx" ∷ "zip" ∷ "rar"
    ∷ "attachment" ∷ "附件" ∷ []

abbrev pub image_keywords : List String
image_keywords =
    "图片" ∷ "照片" ∷ "截图" ∷ "image" ∷ "photo" ∷ "screenshot" ∷ "jpg" ∷ "jpeg" ∷ "png" ∷ "gif" ∷ "webp"
    ∷ "相册" ∷ []

abbrev pub audio_keywords : List String
audio_keywords = "语音" ∷ "voice" ∷ "audio" ∷ "mp3" ∷ "wav" ∷ "aac" ∷ "录音" ∷ "通话" ∷ []

abbrev pub link_keywords : List String
link_keywords = "http" ∷ "https" ∷ "www." ∷ "链接" ∷ "link" ∷ "url" ∷ []

abbrev pub mention_keywords : List String
mention_keywords = "@你" ∷ "@所有人" ∷ "提到了你" ∷ "mentioned you" ∷ "@" ∷ []

abbrev pub calendar_keywords : List String
calendar_keywords =
    "会议" ∷ "meeting" ∷ "calendar" ∷ "日历" ∷ "invitation" ∷ "邀请" ∷ "schedule" ∷ "日程" ∷ []

abbrev pub financial_keywords : List String
financial_keywords = "支付" ∷ "付款" ∷ "转账" ∷ "payment" ∷ "transaction" ∷ "红包" ∷ "balance" ∷ "余额" ∷ []

abbrev pub verification_keywords : List String
verification_keywords = "验证码" ∷ "code" ∷ "otp" ∷ "验证" ∷ "verification" ∷ "captcha" ∷ []

abbrev pub keywords : SemanticHint → List String
keywords SemanticHint.file_mention = file_keywords
keywords SemanticHint.image_mention = image_keywords
keywords SemanticHint.audio_message = audio_keywords
keywords SemanticHint.link_attachment = link_keywords
keywords SemanticHint.user_mentioned = mention_keywords
keywords SemanticHint.calendar_invitation = calendar_keywords
keywords SemanticHint.financial_context = financial_keywords
keywords SemanticHint.verification_code = verification_keywords

-- `if contains_any(&combined, ..) { hints.push(hint) }`
abbrev pub push_if : Bool → SemanticHint → List SemanticHint → List SemanticHint
push_if found hint hints = if found then hints ++ hint ∷ [] else hints

-- the eight tests, in the order of the source
unfoldable pub hints_of : String → List SemanticHint
hints_of combined =
    push_if (contains_any combined verification_keywords) SemanticHint.verification_code (
      push_if (contains_any combined financial_keywords) SemanticHint.financial_context (
        push_if (contains_any combined calendar_keywords) SemanticHint.calendar_invitation (
          push_if (contains_any combined mention_keywords) SemanticHint.user_mentioned (
            push_if (contains_any combined link_keywords) SemanticHint.link_attachment (
              push_if (contains_any combined audio_keywords) SemanticHint.audio_message (
                push_if (contains_any combined image_keywords) SemanticHint.image_mention
                  (push_if (contains_any combined file_keywords) SemanticHint.file_mention [])))))))

-- the `match ext`
unfoldable pub category_of_extension : String → ExtensionCategory
category_of_extension ext =
    if member
      ("pdf" ∷ "doc" ∷ "docx" ∷ "xls" ∷ "xlsx" ∷ "ppt" ∷ "pptx" ∷ "txt" ∷ "md" ∷ "csv" ∷ "odt"
        ∷ "ods" ∷ "odp" ∷ [])
      ext
    then ExtensionCategory.document
    else if member
        ("jpg" ∷ "jpeg" ∷ "png" ∷ "gif" ∷ "webp" ∷ "heic" ∷ "heif" ∷ "bmp" ∷ "svg" ∷ "tiff" ∷ [])
        ext
    then ExtensionCategory.image
    else if member ("mp4" ∷ "mov" ∷ "avi" ∷ "mkv" ∷ "webm" ∷ "flv" ∷ "wmv" ∷ "3gp" ∷ []) ext
    then ExtensionCategory.video
    else if member ("mp3" ∷ "wav" ∷ "aac" ∷ "flac" ∷ "ogg" ∷ "wma" ∷ "m4a" ∷ "opus" ∷ []) ext
    then ExtensionCategory.audio
    else if member ("zip" ∷ "rar" ∷ "7z" ∷ "tar" ∷ "gz" ∷ "bz2" ∷ "xz" ∷ "apk" ∷ "aab" ∷ []) ext
    then ExtensionCategory.archive
    else if member
        ("py" ∷ "js" ∷ "ts" ∷ "rs" ∷ "cpp" ∷ "c" ∷ "h" ∷ "java" ∷ "kt" ∷ "swift" ∷ "go" ∷ "so"
          ∷ "dylib" ∷ "dll" ∷ [])
        ext
    then ExtensionCategory.code
    else if str_eq ext ""
    then ExtensionCategory.unknown
    else ExtensionCategory.other

module _ (to_lowercase : String → String) where
  unfoldable pub extract_semantic_hints : String → String → List SemanticHint
  extract_semantic_hints title text = hints_of (to_lowercase (concat title (concat " " text)))

  unfoldable pub classify_extension : (String → String) → String → ExtensionCategory
  classify_extension path_extension path =
      category_of_extension (path_extension (to_lowercase path))
