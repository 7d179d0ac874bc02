-- ===== src/Web.antt =====
-- The static files of the web server (src/webserver.cpp): which path a request opens, and how a file is
-- sent.
pub mod Within
pub mod Chunks
use nanocap.Prelude.{
  ℕ, zero, suc, ◌+◌, ◌&&◌, Bool, true, false, Option, none, some, List, [], ◌∷◌, ◌++◌, length, take,
  drop, leb, ltb, ◌==◌, if◌then◌else◌,
}
use nanocap.Stream.{Bytes}
use nanocap.Util.Text.{codes}
use nanocap.Db.Query.{same_bytes}

-- A path by its parts, the root first.
abbrev pub FilePath : Type 0
FilePath = List Bytes

-- What the program calls of `boost::filesystem` and of `std::ifstream`. `parts` are those of the path
-- of a request, which `operator/` appends as they are; `..` is a part. `file` is what a path opens.
pub record Files : Type 0 where
  pub parts : Bytes → FilePath
  pub exists : FilePath → Bool
  pub is_directory : FilePath → Bool
  pub extension : FilePath → Bytes
  pub file : FilePath → Option Bytes

-- `std::equal` of the parts of the root with as many parts of the path.
unfoldable pub starts_with : FilePath → FilePath → Bool
starts_with [] path = true
starts_with (r ∷ root) [] = false
starts_with (r ∷ root) (p ∷ path) = same_bytes r p && starts_with root path

-- The test that a path is within the root.
unfoldable pub is_within : FilePath → FilePath → Bool
unfolding starts_with
is_within root path = leb (length root) (length path) && starts_with root path

-- The content types that are set.
pub data ContentType : Type 0 where
  text_html text_css application_javascript image_png no_type : ContentType

unfoldable pub content_type : Bytes → ContentType
content_type ext =
    if same_bytes ext (codes ".html")
    then text_html
    else if same_bytes ext (codes ".css")
    then text_css
    else if same_bytes ext (codes ".js")
    then application_javascript
    else if same_bytes ext (codes ".png")
    then image_png
    else no_type

-- The size of a read.
abbrev pub buffer_size : ℕ
buffer_size = 131072

-- `read_and_send`: what is written, by reads; a full read is sent, and if `sent` says that this
-- succeeded, more is read. The fuel bounds the reads.
unfoldable pub read_and_send : ℕ → (ℕ → Bool) → Bytes → List Bytes
read_and_send zero sent content = []
read_and_send (suc fuel) sent content =
    let rest = read_and_send fuel (λ n. sent (suc n)) (drop buffer_size content) in
    if ltb 0 (length (take buffer_size content))
    then take buffer_size content
      ∷ (if (length (take buffer_size content) == buffer_size) && sent 0 then rest else [])
    else []

-- A response: a file with its type and length, or an error 400.
pub data FileResponse : Type 0 where
  file_response : ContentType → ℕ → List Bytes → FileResponse
  bad_request : FileResponse

module _ (files : Files) where
  open files use {parts, exists, is_directory, extension, file}

  -- A path that does not exist loads the index of the root.
  unfoldable pub resolve : FilePath → Bytes → FilePath
  resolve root request_path =
      if exists (root ++ parts request_path) then root ++ parts request_path else root

  abbrev pub with_index : FilePath → FilePath
  with_index path = if is_directory path then path ++ codes "index.html" ∷ [] else path

  unfoldable pub send_file : (ℕ → Bool) → FilePath → Option Bytes → FileResponse
  unfolding content_type read_and_send
  send_file sent path none = bad_request
  send_file sent path (some content) =
      file_response (content_type (extension path)) (length content)
        (read_and_send (suc (length content)) sent content)

  unfoldable pub serve_static : FilePath → (ℕ → Bool) → Bytes → FileResponse
  unfolding resolve is_within send_file
  serve_static root sent request_path =
      let path = resolve root request_path in
      if is_within root path
      then send_file sent (with_index path) (file (with_index path))
      else bad_request
