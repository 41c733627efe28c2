-- ===== src/Pe/Table.antt =====
-- `_read_function_table` of parsers.py.
pub mod Roundtrip
use ai_reverse_agent.Prelude.{ℕ, zero, suc, ◌+◌, List, [], ◌∷◌, ltb, ◌==◌, length, if◌then◌else◌}
use ai_reverse_agent.Result.{ok, err}
use ai_reverse_agent.Bytes.{Bytes, from_little}
use ai_reverse_agent.Identifier.{FunctionEntry}
use ai_reverse_agent.Pe.Stream.{Reader, pure, ◌>>=◌, read, seek, ascii}

-- What follows the byte with the length of the name.
abbrev pub name_length : Bytes → ℕ
name_length [] = 0
name_length (n ∷ ns) = n

-- The loop over the records, with `left` rounds to go.
unfoldable pub read_records : ℕ → Reader (List FunctionEntry)
read_records zero = pure []
read_records (suc left) = read 4 >>= λ addr_data.
    if ltb (length addr_data) 4
    then pure []
    else if from_little addr_data == 0
    then pure []
    else read 1 >>= λ nlen_data.
        if name_length nlen_data == 0
        then pure []
        else read (name_length nlen_data) >>= λ name_data.
            if ltb (length name_data) (name_length nlen_data)
            then pure []
            else read_records left >>= λ rest.
                pure (record { address = from_little addr_data; name = ascii name_data } ∷ rest)

-- _read_function_table
unfoldable pub read_function_table : ℕ → Reader (List FunctionEntry)
unfolding seek read_records
read_function_table rdata_raw_offset = do start ← seek rdata_raw_offset; read_records 4096
