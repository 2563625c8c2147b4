-- ===== src/StoreForward/Metadata.antt =====
-- `loadMetadata` and `saveMetadata` of logger/firmware/src/StoreForwardQueue.cpp.
use devices.Prelude.{Bool, true, false, Option, some, none, ◌&&◌, length, ◌==◌, if◌then◌else◌}
use devices.StoreForward.Fs.{Fs, metadata_path, metadata_temporary_path}
use devices.StoreForward.Format.{
  Metadata, metadata_bytes, legacy_metadata_bytes, encode_metadata, decode_metadata, decode_legacy,
}
use devices.StoreForward.Types.{Queue}

module _ {W R : Type 0} (fs : Fs W R) where
  -- `none` where the source returns false; its only caller then starts from empty metadata.
  unfoldable pub load_metadata : W → Option Metadata × W
  load_metadata w =
      let (opened, w₁) = fs.open_read metadata_path w in
      elim opened [
        | none ↦ (none, w₁)
        | some file ↦
            let (bytes, _) = fs.read metadata_bytes file in
            let (rewound, start) = fs.seek 0 file in
            let (legacy, _) = fs.read legacy_metadata_bytes start in
            (
              if (fs.size file == metadata_bytes) && (length bytes == metadata_bytes)
                  then decode_metadata bytes
                  else if rewound && (fs.size file == legacy_metadata_bytes)
                  then (if length legacy == legacy_metadata_bytes
                      then decode_legacy legacy
                      else none)
                  else none,
              w₁,
            )
      ]

  -- The temporary file is written whole, and then replaces the metadata in one rename.
  unfoldable pub save_metadata : Queue → W → Bool × Queue × W
  save_metadata q w =
      let bytes = encode_metadata q.metadata in
      let w₁ =
        if fs.exists metadata_temporary_path w then fs.remove metadata_temporary_path w else w in
      let (opened, w₂) = fs.open_write metadata_temporary_path w₁ in
      let (written, w₃) = fs.write metadata_temporary_path bytes w₂ in
      let w₄ = fs.close metadata_temporary_path (fs.flush metadata_temporary_path w₃) in
      let (renamed, w₅) = fs.rename metadata_temporary_path metadata_path w₄ in
      if opened
      then (if written == metadata_bytes
          then (if renamed
              then (true, q, w₅)
              else (false, record q { last_error = "Queue metadata commit failed" }, w₅))
          else (false, record q { last_error = "Queue metadata write failed" }, w₃))
      else (false, record q { last_error = "Queue metadata write failed" }, w₂)
