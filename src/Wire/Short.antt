-- ===== src/Wire/Short.antt =====
-- Inputs that the decoders of types/src do not check for: a slice that ends inside a message.
