-- ===== src/Translations/Es/Wallet.antt =====
-- The Spanish texts of the views of the wallet, lines 1373 to 1469 of frontend/src/i18n/translations.ts.
use lokinode.Translations.Table.{Table}
use mathlib.Core.List.{[], ◌∷◌}

unfoldable pub texts : Table
texts =
    ("send.total_cost", "Costo total")
    ∷ ("send.confirm_send", "Confirmar y enviar")
    ∷ ("send.recipient", "Dirección del destinatario")
    ∷ ("send.amount", "Monto (FLC)")
    ∷ ("send.available", "Disponible: {{amount}} FLC")
    ∷ ("send.fee_speed", "Velocidad de comisión")
    ∷ ("send.economy", "Económico")
    ∷ ("send.standard", "Estándar")
    ∷ ("send.fast", "Rápido")
    ∷ ("send.next", "Siguiente")
    ∷ ("send.back", "Atrás")
    ∷ ("send.review", "Revisar")
    ∷ ("send.estimating", "Estimando…")
    ∷ ("send.confirm_title", "Confirmar transacción")
    ∷ ("send.to", "Para")
    ∷ ("send.amount_label", "Monto")
    ∷ ("send.fee_rate", "Tarifa")
    ∷ ("send.est_fee", "Com. estimada")
    ∷ ("send.balance_after", "Saldo después")
    ∷ ("send.coins", "Enviar")
    ∷ ("send.sending", "Enviando…")
    ∷ ("send.success", "¡Enviado!")
    ∷ ("send.errors.address", "La dirección es requerida")
    ∷ ("send.errors.amount", "Monto inválido")
    ∷ ("send.errors.fee", "No se pudo estimar la comisión")
    ∷ ("send.errors.failed", "Envío fallido")
    ∷ ("send.address_ph", "flc1q…")
    ∷ ("send.address_first", "Por favor, ingrese primero una dirección de destinatario")
    ∷ ("send.amount_ph", "0.00000000")
    ∷ ("send.review_title", "Revisar transacción")
    ∷ ("send.sending_label", "Enviando")
    ∷ ("send.network_fee", "Comisión de red")
    ∷ ("send.arrival_est", "Llegada est.: ~{{time}} mins")
    ∷ ("send.calculating", "Calculando…")
    ∷ ("send.errors.exceeds_balance", "El monto supera tu saldo")
    ∷ (
      "send.errors.leave_fee_room",
      "Monto demasiado alto — deja margen para la comisión (~{{fee}} FLC)",
    )
    ∷ ("history.empty", "Sin transacciones aún")
    ∷ ("history.load_more", "Cargar más ({{count}} restantes)")
    ∷ ("history.unconfirmed", "Sin confirmar")
    ∷ ("history.conf", "{{count}} conf")
    ∷ ("about.version", "Versión")
    ∷ ("about.latest", "Última")
    ∷ ("about.latest_badge", "actualizada")
    ∷ ("about.download", "Descargar actualización")
    ∷ ("about.github", "Ver en GitHub")
    ∷ ("update.title", "Actualización disponible")
    ∷ ("update.body", "La versión {{version}} trae mejoras de seguridad y correcciones.")
    ∷ ("update.later", "Más tarde")
    ∷ ("update.now", "Actualizar ahora")
    ∷ ("wallet.setup.title", "Configuración de cartera")
    ∷ ("wallet.setup.new", "Nueva cartera")
    ∷ ("wallet.setup.mnemonic", "Mnemónico")
    ∷ ("wallet.setup.private", "Clave privada")
    ∷ ("wallet.pwd.title", "Establecer contraseña")
    ∷ ("wallet.pwd.label", "Contraseña de cartera")
    ∷ ("wallet.pwd.confirm", "Confirmar contraseña")
    ∷ ("wallet.pwd.repeat_ph", "Repetir contraseña")
    ∷ ("wallet.new.title", "Protección extra")
    ∷ ("wallet.new.optional", "(opcional)")
    ∷ ("wallet.new.seed_pwd", "Contraseña de semilla")
    ∷ ("wallet.new.seed_pwd_ph", "Opcional — dejar vacío si no se desea")
    ∷ ("wallet.new.confirm_pwd", "Confirmar contraseña")
    ∷ ("wallet.new.confirm_pwd_ph", "Repetir contraseña")
    ∷ ("wallet.new.generate", "Generar cartera")
    ∷ ("wallet.new.recovery_title", "Frase de recuperación")
    ∷ (
      "wallet.new.recovery_desc",
      "Anota estas 24 palabras. Son la única forma de recuperar tu cartera.",
    )
    ∷ ("wallet.new.saved_btn", "He guardado mi frase")
    ∷ ("wallet.new.mismatch", "Las contraseñas no coinciden")
    ∷ ("wallet.new.error", "Error de cartera")
    ∷ ("wallet.import.recovery", "Frase de recuperación")
    ∷ ("wallet.import.recovery_ph", "Ingresa las 24 palabras separadas por espacios")
    ∷ ("wallet.import.seed_pwd", "Contraseña de semilla (opcional)")
    ∷ ("wallet.import.seed_pwd_ph", "Opcional — dejar vacío si no se desea")
    ∷ ("wallet.import.restore", "Restaurar cartera")
    ∷ ("wallet.import.error_24words", "Deben ser exactamente 24 palabras")
    ∷ ("wallet.import.error", "Error de importación")
    ∷ ("wallet.private.label", "Clave privada")
    ∷ ("wallet.private.ph", "e9860a33a39e80c427382d619946808f5d75571694f6c4d7e9f3b5c777d0a7a3")
    ∷ ("wallet.errors.key_required", "Clave privada requerida")
    ∷ ("wallet.mnemonic.notice", "Aviso de seguridad importante")
    ∷ (
      "wallet.mnemonic.ensure", "Asegúrese de haber respaldado de forma segura su frase mnemónica.",
    )
    ∷ ("wallet.mnemonic.point1", "Esta es su ÚNICA oportunidad de respaldar estas palabras")
    ∷ ("wallet.mnemonic.point2", "Sin este respaldo, no podrá recuperar su cartera si se pierde")
    ∷ (
      "wallet.mnemonic.point3",
      "Guarde este respaldo en un lugar seguro, nunca lo comparta con nadie",
    )
    ∷ ("wallet.mnemonic.footer", "Una vez confirmado, no volverá a ver estas palabras")
    ∷ ("wallet.mnemonic.back", "Volver")
    ∷ ("wallet.mnemonic.confirm", "He respaldado mi mnemónico")
    ∷ ("common.info", "Información")
    ∷ ("common.close", "Cerrar")
    ∷ ("common.apply", "Aplicar")
    ∷ ("common.save", "Guardar")
    ∷ ("common.copy", "Copiar")
    ∷ ("common.copied", "Copiado")
    ∷ ("common.processing", "Procesando…")
    ∷ ("common.error", "Error")
    ∷ ("common.continue", "Continuar")
    ∷ []
