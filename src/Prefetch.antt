-- ===== src/Prefetch.antt =====
-- crates/aios-agent/src/backends/prefetch_target.rs: a place to fetch from, for an app and a kind of file.
pub mod Safe
use di_pecs.Base.{
  ℕ, String, Bool, true, false, Option, none, some, List, [], ◌∷◌, ◌&&◌, ◌||◌, not, any, ltb, leb,
  ◌==◌, if◌then◌else◌,
}
use di_pecs.Base.Text.{str_eq, contains, chars, concat}
use di_pecs.Spec.Event.{ExtensionCategory}
use Prim.Native.Char.{Char}

-- what the program asks of `str` and `char` besides comparisons: `trim`, `to_ascii_lowercase`, and
-- `to_lowercase` of one character
pub record Texts : Type 0 where
  pub trim : String → String
  pub to_ascii_lowercase : String → String
  pub to_lowercase : Char → String

unfoldable pub fallback_url : ExtensionCategory → String
fallback_url ExtensionCategory.document =
    "https://www.w3.org/WAI/ER/tests/xhtml/testfiles/resources/pdf/dummy.pdf"
fallback_url ExtensionCategory.image = "https://httpbin.org/image/png"
fallback_url ExtensionCategory.video = "https://www.w3schools.com/html/mov_bbb.mp4"
fallback_url ExtensionCategory.audio = "https://www.w3schools.com/html/horse.mp3"
fallback_url ExtensionCategory.archive =
    "https://github.com/114August514/DiPECS/archive/refs/heads/main.zip"
fallback_url ExtensionCategory.code =
    "https://raw.githubusercontent.com/114August514/DiPECS/main/README.md"
fallback_url ExtensionCategory.other = "https://httpbin.org/json"
fallback_url ExtensionCategory.unknown = "https://httpbin.org/json"

-- the two inner `match`es of `known_package_url`
abbrev pub feishu_url : ExtensionCategory → String
feishu_url ExtensionCategory.document = "https://www.feishu.cn/docx/"
feishu_url _ = "https://www.feishu.cn/"

abbrev pub drive_url : ExtensionCategory → String
drive_url ExtensionCategory.image = "https://photos.google.com/"
drive_url ExtensionCategory.video = "https://photos.google.com/"
drive_url _ = "https://drive.google.com/drive/my-drive"

-- `known_package_url` after its first line
unfoldable pub url_of_package : String → ExtensionCategory → Option String
url_of_package name category =
    if contains name "lark" || contains name "feishu"
    then some (feishu_url category)
    else if str_eq name "com.google.android.apps.docs" || contains name "drive"
    then some (drive_url category)
    else if contains name "dropbox"
    then some "https://www.dropbox.com/home"
    else if contains name "skydrive" || contains name "onedrive"
    then some "https://onedrive.live.com/"
    else if contains name "slack"
    then some "https://app.slack.com/client"
    else if contains name "telegram"
    then some "https://web.telegram.org/"
    else if contains name "whatsapp"
    then some "https://www.whatsapp.com/"
    else if contains name "tencent.mm" || contains name "wechat"
    then some "https://weixin.qq.com/"
    else if contains name "tencent.mobileqq" || contains name "mobileqq"
    then some "https://im.qq.com/"
    else if contains name "chrome" || contains name "browser"
    then some "https://www.google.com/"
    else none

abbrev pub is_ascii_alphanumeric : ℕ → Bool
is_ascii_alphanumeric c =
    (leb 48 c && leb c 57) || (leb 65 c && leb c 90) || (leb 97 c && leb c 122)

-- `.`, `_` and `-`
abbrev pub is_name_char : ℕ → Bool
is_name_char c = is_ascii_alphanumeric c || c == 46 || c == 95 || c == 45

unfoldable pub looks_like_package_name : String → Bool
looks_like_package_name raw =
    contains raw "."
    && not (contains raw "/")
    && not (contains raw ":")
    && not (any (λ c. not (is_name_char c)) (chars raw))

module _ (texts : Texts) where
  open texts use {trim, to_ascii_lowercase}

  unfoldable pub known_package_url : String → ExtensionCategory → Option String
  known_package_url package_name category =
      url_of_package (to_ascii_lowercase (trim package_name)) category

  abbrev pub url_for : ExtensionCategory → Option String → Option String
  url_for category none = none
  url_for category (some package_name) = known_package_url package_name category

  abbrev pub or_fallback : ExtensionCategory → Option String → String
  or_fallback category none = fallback_url category
  or_fallback category (some url) = url

  unfoldable pub default_prefetch_target : ExtensionCategory → Option String → String
  default_prefetch_target category package_name =
      concat "url:" (or_fallback category (url_for category package_name))
