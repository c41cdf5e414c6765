-- ===== src/Epub/Error.antt =====
-- The stable error codes of the EPUB reader: crates/epub/src/error.rs.
use folioharbor.Prelude.Result.{Result}

pub data EpubErrorCode : Type 0 where
  invalid_archive unsupported_archive entry_limit central_directory_limit : EpubErrorCode
  total_size_limit compression_ratio_limit path_depth_limit xml_depth_limit : EpubErrorCode
  resource_size_limit deadline_exceeded unsafe_path duplicate_path : EpubErrorCode
  encrypted_content invalid_container missing_package invalid_package : EpubErrorCode
  invalid_spine invalid_navigation invalid_content : EpubErrorCode

-- `Result<T, EpubError>`: an `EpubError` holds its code and nothing else.
abbrev pub Checked {ℓ} : Type ℓ → Type ℓ
Checked A = Result A EpubErrorCode
