-- ===== src/Llm/Lookup/Limits.antt =====
-- The table of internal/llm/limits.go, in the order of the source.
use packet_lab.Prelude.{ℕ, [], ◌∷◌, String, Bytes, bytes, Map}
use packet_lab.Llm.Lookup.{ModelLimits, lookup_model}

abbrev limit : String → ℕ → ℕ → Bytes × ModelLimits
limit key context_length max_output =
    (bytes key, record { context_length = context_length; max_output = max_output })

-- `modelLimits`
abbrev pub model_limits : Map ModelLimits
model_limits =
    limit "claude-fable-5" 1000000 128000
    ∷ limit "claude-haiku-4-5-20251001" 200000 64000
    ∷ limit "claude-opus-4-5-20251101" 200000 64000
    ∷ limit "claude-opus-4-6" 1000000 128000
    ∷ limit "claude-opus-4-7" 1000000 128000
    ∷ limit "claude-opus-4-8" 1000000 128000
    ∷ limit "claude-sonnet-4-5" 1000000 0
    ∷ limit "claude-sonnet-4-5-20250929" 1000000 64000
    ∷ limit "claude-sonnet-4-6" 1000000 128000
    ∷ limit "claude-sonnet-5" 1000000 128000
    ∷ limit "deepseek-chat" 1000000 384000
    ∷ limit "deepseek-reasoner" 1000000 384000
    ∷ limit "gemini-2.5-flash-lite" 1048576 65536
    ∷ limit "gemini-3-flash-preview" 1048576 65536
    ∷ limit "gemini-3.1-flash-lite" 1048576 65536
    ∷ limit "gemini-3.1-pro-preview" 1048576 65536
    ∷ limit "gemini-3.5-flash" 1048576 65536
    ∷ limit "glm-4.5" 131072 98304
    ∷ limit "glm-4.5-air" 131072 98304
    ∷ limit "glm-4.5v" 64000 16384
    ∷ limit "glm-4.6" 204800 131072
    ∷ limit "glm-4.6v" 128000 32768
    ∷ limit "glm-4.7" 204800 131072
    ∷ limit "glm-4.7-flashx" 200000 131072
    ∷ limit "glm-5" 204800 131072
    ∷ limit "glm-5.1" 200000 131072
    ∷ limit "glm-5.2" 1000000 131072
    ∷ limit "glm-5v-turbo" 200000 131072
    ∷ limit "gpt-3.5-turbo" 16385 4096
    ∷ limit "gpt-4" 8192 8192
    ∷ limit "gpt-4-turbo" 128000 4096
    ∷ limit "gpt-4.1" 1047576 32768
    ∷ limit "gpt-4.1-mini" 1047576 32768
    ∷ limit "gpt-4.1-nano" 1047576 32768
    ∷ limit "gpt-4o" 128000 16384
    ∷ limit "gpt-4o-mini" 128000 16384
    ∷ limit "gpt-5-mini" 400000 128000
    ∷ limit "gpt-5-nano" 400000 128000
    ∷ limit "gpt-5-pro" 400000 272000
    ∷ limit "gpt-5.1" 400000 128000
    ∷ limit "gpt-5.2" 400000 128000
    ∷ limit "gpt-5.2-pro" 400000 128000
    ∷ limit "gpt-5.3-codex" 400000 128000
    ∷ limit "gpt-5.4" 1050000 128000
    ∷ limit "gpt-5.4-mini" 400000 128000
    ∷ limit "gpt-5.4-nano" 400000 128000
    ∷ limit "gpt-5.5" 1050000 128000
    ∷ limit "grok-4.20-0309-non-reasoning" 1000000 30000
    ∷ limit "grok-4.20-0309-reasoning" 1000000 30000
    ∷ limit "grok-4.20-multi-agent-0309" 1000000 30000
    ∷ limit "grok-4.3" 1000000 30000
    ∷ limit "grok-build-0.1" 256000 256000
    ∷ limit "kimi-k2-0711-preview" 131072 16384
    ∷ limit "kimi-k2-0905-preview" 262144 262144
    ∷ limit "kimi-k2-thinking" 262144 262144
    ∷ limit "kimi-k2-thinking-turbo" 262144 262144
    ∷ limit "kimi-k2-turbo-preview" 262144 262144
    ∷ limit "kimi-k2.5" 262144 262144
    ∷ limit "kimi-k2.6" 262144 262144
    ∷ limit "minimax-m2" 196608 128000
    ∷ limit "minimax-m2.1" 204800 131072
    ∷ limit "minimax-m2.5" 204800 131072
    ∷ limit "minimax-m2.5-highspeed" 204800 131072
    ∷ limit "minimax-m2.7" 204800 131072
    ∷ limit "minimax-m2.7-highspeed" 204800 131072
    ∷ limit "minimax-m3" 1000000 128000
    ∷ limit "o1" 200000 100000
    ∷ limit "o3" 200000 100000
    ∷ limit "o3-mini" 200000 100000
    ∷ limit "o4-mini" 200000 100000
    ∷ limit "qvq-max" 131072 8192
    ∷ limit "qwen-max" 32768 8192
    ∷ limit "qwen-plus" 1000000 32768
    ∷ limit "qwen-turbo" 1000000 16384
    ∷ limit "qwen3-max" 262144 65536
    ∷ limit "qwen3.6-max-preview" 262144 65536
    ∷ limit "qwen3.6-plus" 1000000 65536
    ∷ limit "qwen3.7-max" 1000000 65536
    ∷ limit "qwen3.7-plus" 1000000 65536
    ∷ limit "qwq-plus" 131072 8192
    ∷ []

-- `LookupLimits`
unfoldable pub lookup_limits : Bytes → ModelLimits
lookup_limits model =
    lookup_model model_limits (record { context_length = 0; max_output = 0 }) model
