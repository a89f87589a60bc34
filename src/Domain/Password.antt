-- ===== src/Domain/Password.antt =====
-- `valid_password` of crates/domain/src/lib.rs, over the code points of the password.
use tasktips_cloud.Base.{ℕ, Bool, ◌&&◌, ◌||◌, List, leb, length, any_by}

abbrev pub min_password_length : ℕ
min_password_length = 12

-- `char::is_ascii_alphabetic`
abbrev pub is_ascii_alphabetic : ℕ → Bool
is_ascii_alphabetic c = (leb b'a' c && leb c b'z') || (leb b'A' c && leb c b'Z')

-- `char::is_ascii_digit`
abbrev pub is_ascii_digit : ℕ → Bool
is_ascii_digit c = leb b'0' c && leb c b'9'

unfoldable pub valid_password : List ℕ → Bool
valid_password password =
    leb min_password_length (length password)
    && any_by is_ascii_alphabetic password
    && any_by is_ascii_digit password
